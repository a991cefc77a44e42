-- ===== src/Transport/Serial.antt =====
-- What a connection promises: frames are asked one after the other, at most `limit` of them without
-- an answer, and the answers go out in the order of the frames.
use vm_sync.Base.{
  ℕ, zero, suc, sym, ◌∙◌, ap, subst, append-nil, ◌+◌, ◌<◌, ◌≤◌, ◌≡◌, refl, Bool, true, false, List,
  [], ◌∷◌, ◌++◌, append_assoc, arith,
}
use vm_sync.Protocol.Frame.{ack_fail}

pub record Serial : Type 0 where
  pub asked : ℕ
  pub answered : ℕ
  pub wire : List ℕ
  pub accepting : Bool

abbrev pub idle : Serial
idle = record { asked = 0; answered = 0; wire = []; accepting = true }

module _ (limit : ℕ) (answer : ℕ → ℕ) where
  -- `refuse` answers bytes that are no frame, at any place among the answers.
  pub data SerialStep (s t : Serial) : Type 0 where
    ask :
        s.accepting ≡ true
        → s.asked < s.answered + limit
        → t ≡ record s { asked = suc s.asked }
        → SerialStep s t
    reply :
        s.answered < s.asked
        → t ≡ record s { answered = suc s.answered; wire = s.wire ++ answer s.answered ∷ [] }
        → SerialStep s t
    refuse :
        s.accepting ≡ true
        → t ≡ record s { wire = s.wire ++ ack_fail ∷ []; accepting = false }
        → SerialStep s t
    leave : t ≡ record s { accepting = false } → SerialStep s t

  pub data Serves (s : Serial) : Serial → Type 0 where
    here : Serves s s
    next : {t u : Serial} → Serves s t → SerialStep t u → Serves s u

  -- The answers to the first frames.
  unfoldable pub answers : ℕ → List ℕ
  answers zero = []
  answers (suc n) = answers n ++ answer n ∷ []

  -- The answers so far, with one 0x00 more among them when the read loop has refused a header.
  pub data Replied (n : ℕ) (wire : List ℕ) (accepting : Bool) : Type 0 where
    in_order : wire ≡ answers n → Replied n wire accepting
    refused :
        (before later : List ℕ)
        → accepting ≡ false
        → wire ≡ before ++ ack_fail ∷ later
        → before ++ later ≡ answers n
        → Replied n wire accepting

  abbrev pub IsReplied : Serial → Type 0
  IsReplied s =
      Replied s.answered s.wire s.accepting
      × (s.answered ≤ s.asked)
      × (s.asked ≤ s.answered + limit)

  Replied-reply :
      (n : ℕ) (wire : List ℕ) (accepting : Bool)
      → Replied n wire accepting
      → Replied (suc n) (wire ++ answer n ∷ []) accepting
  unfolding answers
  Replied-reply n wire accepting (in_order e) = in_order (rw e refl)
  Replied-reply n wire accepting (refused before later shut e f) =
      refused before (later ++ answer n ∷ []) shut (rw (e, append_assoc) refl)
        (sym (append_assoc before later _) ∙ ap (λ (l : List ℕ). l ++ answer n ∷ []) f)

  Replied-shut :
      (n : ℕ) (wire : List ℕ) (accepting : Bool) → Replied n wire accepting → Replied n wire false
  Replied-shut n wire accepting (in_order e) = in_order e
  Replied-shut n wire accepting (refused before later shut e f) = refused before later refl e f

  Replied-refuse :
      (n : ℕ) (wire : List ℕ) → Replied n wire true → Replied n (wire ++ ack_fail ∷ []) false
  Replied-refuse n wire (in_order e) = refused wire [] refl refl (append-nil wire ∙ e)
  Replied-refuse n wire (refused before later shut e f) = absurd (ground (arith, shut))

  SerialStep-IsReplied : (s t : Serial) → SerialStep s t → IsReplied s → IsReplied t
  SerialStep-IsReplied s t (ask on below e) h = rw e (h.0, omega (arith, h.1), omega (arith, h.2))
  SerialStep-IsReplied s t (reply below e) h =
      rw e (Replied-reply s.answered s.wire s.accepting h.0, omega (arith, h.1), omega (arith, h.2))
  SerialStep-IsReplied s t (refuse on e) h =
      rw e (
        Replied-refuse s.answered s.wire (subst (λ b. Replied s.answered s.wire b) on h.0),
        h.1,
        h.2,
      )
  SerialStep-IsReplied s t (leave e) h =
      rw e (Replied-shut s.answered s.wire s.accepting h.0, h.1, h.2)

  -- Whatever is asked, the answers go out in the order of the frames, and the frames without an
  -- answer stay within the limit.
  pub Serves-IsReplied : {s t : Serial} → Serves s t → IsReplied s → IsReplied t
  Serves-IsReplied here h = h
  Serves-IsReplied (next run step) h = SerialStep-IsReplied _ _ step (Serves-IsReplied run h)
