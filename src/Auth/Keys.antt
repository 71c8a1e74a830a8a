-- ===== src/Auth/Keys.antt =====
-- The header and the keys of app/auth.py: what the split of the header and the comparison mean.
use Prim.Native.Char.{Char, code}
use real_guard_v.Prelude.{
  ◌≡◌, ◌≢◌, refl, ◌∙◌, arith, ◌⊎◌, inl, inr, String, Bool, true, false, ◌||◌, List, [], ◌∷◌, ◌++◌,
  str_eq, eq_iff, Bool-cases, mem, ap,
}
use real_guard_v.Errors.{Result, ok, err}
use real_guard_v.Text.{codes}
use real_guard_v.Auth.{
  Credentials, Identity, service, reviewer, partition, constant_time_member, identity_of_key,
}

compared :
    (token k : String) (keys : List String) (o : Result Bool) {b : Bool}
    → constant_time_member token keys ≡ o
    → constant_time_member token (k ∷ keys) ≡ ok b
    → (found : Bool) × (o ≡ ok found) × ((str_eq token k || found) ≡ b)
unfolding constant_time_member
compared token k keys (ok found) same h = (found, refl, ground arith)
compared token k keys (err e) same h = absurd (ground arith)

-- A comparison that returns says whether the key is listed.
pub constant_time_member-mem :
    (token : String) (keys : List String) {b : Bool}
    → constant_time_member token keys ≡ ok b
    → mem token keys ≡ b
unfolding constant_time_member
constant_time_member-mem token [] h = ground arith
constant_time_member-mem token (k ∷ keys) h =
    let (found, same, joined) = compared token k keys (constant_time_member token keys) refl h in
    ap (λ x. str_eq token k || x) (constant_time_member-mem token keys same) ∙ joined

-- What stands after the first space, if anything does.
pub partition-space :
    (h : String)
    → (partition h).1 ≢ ""
    → codes h ≡ codes (partition h).0 ++ (32 ∷ codes (partition h).1)
partition-space String.[] some_text = absurd (some_text refl)
partition-space (String.◌∷◌ c h) some_text =
    elim (Bool-cases (str_eq (String.◌∷◌ c String.[]) " ")) [
      | inl e ↦ rw e (ap (λ k. k ∷ codes h) (space c ((eq_iff (String.◌∷◌ c String.[]) " ").0 e)))
      | inr e ↦ rw e (ap (λ t. code c ∷ t) (partition-space h (rw e at some_text)))
    ]
  where
    space : (c : Char) → String.◌∷◌ c String.[] ≡ " " → code c ≡ 32
    space c e = ground (arith, ap (λ s. codes s) e)

-- Whose key a token is, that is given an identity.
abbrev pub Owned : Credentials → String → Identity → Type 0
Owned s token i =
    (i.identity_id ≡ s.key_id_for token)
    × (((mem token s.service_keys ≡ true) × (i.identity_class ≡ service))
        ⊎ ((mem token s.service_keys ≡ false)
            × (mem token s.reviewer_keys ≡ true)
            × (i.identity_class ≡ reviewer)))

owned :
    (s : Credentials) (token : String) (x y : Result Bool) {i : Identity}
    → constant_time_member token s.service_keys ≡ x
    → constant_time_member token s.reviewer_keys ≡ y
    → identity_of_key s token ≡ ok i
    → Owned s token i
owned s token (ok true) y e f h = ground (arith, constant_time_member-mem token s.service_keys e)
owned s token (ok false) (ok true) e f h = ground (
  arith,
  constant_time_member-mem token s.service_keys e,
  constant_time_member-mem token s.reviewer_keys f,
)
owned s token (ok false) (ok false) e f h = absurd (ground arith)
owned s token (ok false) (err x) e f h = absurd (ground arith)
owned s token (err x) y e f h = absurd (ground arith)

pub identity_of_key-Owned :
    (s : Credentials) (token : String) {i : Identity}
    → identity_of_key s token ≡ ok i
    → Owned s token i
identity_of_key-Owned s token h =
    owned s token (constant_time_member token s.service_keys)
      (constant_time_member token s.reviewer_keys) refl refl h
