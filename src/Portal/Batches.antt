-- ===== src/Portal/Batches.antt =====
-- The batches of requests of src/ws-portal/ws-portal-client.cpp.
use mathlib.Core.List.{append-nil, append_assoc}
use src_link.Prelude.{sym, not, true, false}
use src_link.Portal.{halts, push_back, process_batch}
use src_link.Prelude.{
  ◌∙◌, inr, none, inl, refl, ap, some, [], Bool-cases, if◌then◌else◌, ◌++◌, ◌∷◌, ◌≡◌, List, Bool,
  Option,
}

module _ {Response : Type 0} where
  -- A request succeeded if it has a response that says so; what was answered is its response.
  abbrev pub succeeded : Option (Bool × Response) → Bool
  succeeded none = false
  succeeded (some (result, response)) = result

  abbrev pub given : Option (Bool × Response) → List Response
  given none = []
  given (some (result, response)) = response ∷ []

module _ {Request Response : Type 0} (process : Request → Option (Bool × Response)) where
  -- The requests before the first one that does not succeed.
  abbrev pub while_successful : List Request → List Request
  while_successful [] = []
  while_successful (r ∷ rs) =
      let rest = while_successful rs in if succeeded (process r) then r ∷ rest else []

  abbrev pub answers : List Request → List Response
  answers [] = []
  answers (r ∷ rs) = given (process r) ++ answers rs

  halts-true : (o : Option (Bool × Response)) → halts process true o ≡ not (succeeded o)
  halts-true none = refl
  halts-true (some (result, response)) = refl

  halts-false : (o : Option (Bool × Response)) → halts process false o ≡ false
  halts-false none = refl
  halts-false (some (result, response)) = refl

  push_back-given :
      (o : Option (Bool × Response)) (rs : List Response) → push_back process o rs ≡ rs ++ given o
  push_back-given none rs = sym (append-nil rs)
  push_back-given (some (result, response)) rs = refl

  push_answers :
      (o : Option (Bool × Response)) (rs qs : List Response)
      → push_back process o rs ++ qs ≡ rs ++ (given o ++ qs)
  push_answers o rs qs = ap (λ l. l ++ qs) (push_back-given o rs) ∙ append_assoc rs (given o) qs

  all_answered :
      (rs : List Request) (responses : List Response)
      → process_batch process false rs responses ≡ responses ++ answers rs
  unfolding process_batch
  all_answered [] responses = sym (append-nil responses)
  all_answered (r ∷ rs) responses = rw (halts-false (process r)) (
      all_answered rs (push_back process (process r) responses)
      ∙ push_answers (process r) responses (answers rs))

  some_answered :
      (rs : List Request) (responses : List Response)
      → process_batch process true rs responses ≡ responses ++ answers (while_successful rs)
  unfolding process_batch
  some_answered [] responses = sym (append-nil responses)
  some_answered (r ∷ rs) responses = elim (Bool-cases (succeeded (process r))) [
    | inl e ↦
        rw (halts-true (process r), e)
          (some_answered rs (push_back process (process r) responses)
            ∙ push_answers (process r) responses (answers (while_successful rs)))
    | inr e ↦ rw (halts-true (process r), e) (sym (append-nil responses))
  ]

  -- A batch that is to halt on a failure answers, in order, the requests before the first one that
  -- fails or has no response, and not that one; one that is not answers all of them. Requests
  -- without a response add nothing.
  pub process_batch-answers :
      (halt : Bool) (rs : List Request) (responses : List Response)
      → process_batch process halt rs responses
        ≡ responses ++ answers (if halt then while_successful rs else rs)
  process_batch-answers true rs responses = some_answered rs responses
  process_batch-answers false rs responses = all_answered rs responses
