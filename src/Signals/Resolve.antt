-- ===== src/Signals/Resolve.antt =====
-- The main function of the program test (test/test.cpp): an address is parsed, a host is resolved, and
-- a loop goes over the endpoints that were found. asio's answers are given: whether `from_string` and
-- `resolve` report an error, and the endpoints.
use asio_tcp.Base.{
  ℕ, zero, suc, ◌≡◌, ◌≢◌, refl, ◌↔◌, ◌⊎◌, inl, inr, Bool, true, false, Option, none, some, List, [],
  ◌∷◌, ◌++◌, codes, if◌then◌else◌,
}

-- `it != itEnd`; an iterator is what it has before it, and `itEnd` has nothing.
unfoldable pub at_end {ℓ} : {A : Type ℓ} → List A → Bool
at_end [] = true
at_end (e ∷ es) = false

-- while (it != itEnd) { }: the body, which does nothing, runs at most `fuel` times; `none` if the loop
-- has not ended then.
unfoldable pub over_endpoints {ℓ} : {A : Type ℓ} → ℕ → List A → Option (List A)
unfolding at_end
over_endpoints zero it = none
over_endpoints (suc fuel) it =
    let round = over_endpoints fuel it in if at_end it then some it else round

-- What main prints, if it returns within the fuel.
unfoldable pub main {ℓ} :
    {A : Type ℓ} (fuel : ℕ) (bad_address : Bool) (bad_host : Option (List ℕ)) (endpoints : List A)
    → Option (List (List ℕ))
unfolding over_endpoints
main fuel bad_address bad_host endpoints = elim bad_host [
  | some message ↦
      some (warned ++ codes "error in resloving the baidu.com" ∷ (codes "message:" ++ message) ∷ [])
  | none ↦ elim (over_endpoints fuel endpoints) [ none ↦ none | some it ↦ some warned ]
]
  where
    warned : List (List ℕ)
    warned = if bad_address then codes "error" ∷ [] else []

over_endpoints-none {ℓ} :
    {A : Type ℓ} (fuel : ℕ) (e : A) (es : List A) → over_endpoints fuel (e ∷ es) ≡ none
unfolding over_endpoints
over_endpoints-none zero e es = refl
over_endpoints-none (suc fuel) e es = over_endpoints-none fuel e es

-- The main function returns exactly if the host is not resolved, or is resolved to nothing: with an
-- endpoint the loop stays at the first one, however long it runs.
pub main_returns_iff {ℓ} :
    {A : Type ℓ} (fuel : ℕ) (bad_address : Bool) (bad_host : Option (List ℕ)) (endpoints : List A)
    → (main (suc fuel) bad_address bad_host endpoints ≢ none)
      ↔ ((bad_host ≢ none) ⊎ (endpoints ≡ []))
unfolding main
main_returns_iff fuel bad_address (some message) endpoints = (λ h. inl (λ e. cc e), λ h e. cc e)
main_returns_iff fuel bad_address none [] = (λ h. inr refl, λ h e. cc e)
main_returns_iff fuel bad_address none (e ∷ es) = (
  λ h. absurd (h (rw (over_endpoints-none fuel e es, main) refl)),
  λ h same. elim h [ inl other ↦ other refl | inr empty ↦ cc empty ],
)
