-- ===== src/Gateway/Limits.antt =====
-- app/main.py, `RequestSizeLimitMiddleware`: which requests reach the handlers. A body is the list
-- of its bytes, as the server delivers them.
use real_guard_v.Prelude.{
  ℕ, ◌≤◌, ◌≡◌, refl, arith, ◌↔◌, inl, inr, Bool, false, Option, none, some, List, [], ◌∷◌, length,
  ltb, String, mem, if◌then◌else◌, Bool-cases,
}
use real_guard_v.Json.{ℤ, pos, negsuc}
use real_guard_v.Numerals.{parse_int}

pub record Request : Type 0 where
  pub method : String
  pub content_length : Option (List ℕ)
  pub body : List ℕ

-- `_payload_too_large_response`, or `call_next` on a request.
pub data Dispatched : Type 0 where
  too_large : Dispatched
  call_next : Request → Dispatched

abbrev pub above : ℕ → ℤ → Bool
above max_bytes (pos n) = ltb max_bytes n
above max_bytes (negsuc n) = false

-- What a method has to be for its request to have a body.
abbrev pub carries_body : String → Bool
carries_body method = mem method ("POST" ∷ "PUT" ∷ "PATCH" ∷ [])

-- `other_digit` is the value of a decimal digit outside ASCII. The body that is read without a
-- header is put back, so that the handler reads the same bytes.
module _ (other_digit : ℕ → Option ℕ) (max_bytes : ℕ) where
  unfoldable pub dispatch : Request → Dispatched
  dispatch r =
      if carries_body r.method
      then elim (r.content_length) [
        | some header ↦ elim (parse_int other_digit header) [
          | some n ↦ if above max_bytes n then too_large else call_next r
          | none ↦ call_next r
        ]
        | none ↦ if ltb max_bytes (length r.body) then too_large else call_next r
      ]
      else call_next r

  -- Why a request is let through.
  pub data Passes (r : Request) : Type 0 where
    without_body : carries_body r.method ≡ false → Passes r
    declared :
        (header : List ℕ) (n : ℤ)
        → r.content_length ≡ some header
        → parse_int other_digit header ≡ some n
        → above max_bytes n ≡ false
        → Passes r
    undeclared : r.content_length ≡ none → length r.body ≤ max_bytes → Passes r
    unreadable :
        (header : List ℕ)
        → r.content_length ≡ some header
        → parse_int other_digit header ≡ none
        → Passes r

  by_declared :
      (r : Request) (header : List ℕ) (o : Option ℤ)
      → r.content_length ≡ some header
      → parse_int other_digit header ≡ o
      → dispatch r ≡ call_next r
      → Passes r
  unfolding dispatch
  by_declared r header none e p h = unreadable header e p
  by_declared r header (some n) e p h = elim (Bool-cases (carries_body r.method)) [
    | inl with_body ↦ declared header n e p (ground arith)
    | inr bare ↦ without_body bare
  ]

  by_length :
      (r : Request) (o : Option (List ℕ))
      → r.content_length ≡ o
      → dispatch r ≡ call_next r
      → Passes r
  unfolding dispatch
  by_length r (some header) e h = by_declared r header (parse_int other_digit header) e refl h
  by_length r none e h = elim (Bool-cases (carries_body r.method)) [
    | inl with_body ↦ undeclared e (ground arith)
    | inr bare ↦ without_body bare
  ]

  passed : (r : Request) → Passes r → dispatch r ≡ call_next r
  unfolding dispatch
  passed r (without_body bare) = ground arith
  passed r (declared header n e p small) = ground arith
  passed r (undeclared e small) = ground arith
  passed r (unreadable header e p) = ground arith

  -- A request reaches the handler exactly when its method is none that has a body, its declared
  -- length is a number within the limit, it declares none and its body is within the limit, or its
  -- declared length is not a number: then nothing bounds the body.
  pub dispatch-Passes : (r : Request) → (dispatch r ≡ call_next r) ↔ Passes r
  dispatch-Passes r = (by_length r (r.content_length) refl, passed r)
