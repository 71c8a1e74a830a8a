-- ===== src/Gateway/Effects.antt =====
-- The state that a request to the gateway of app/main.py changes, and its calls in order. An error ends the handler
-- and keeps what was done before it; a transaction of the database rolls back on its own.
use real_guard_v.Prelude.{List, [], ◌∷◌, ◌++◌, ◌≡◌, refl, ◌∙◌}
use real_guard_v.Json.{Json}
use real_guard_v.Errors.{Error, Result, ok, err}
use real_guard_v.Store.{Db}
use real_guard_v.Store.Tx.{Tx}
use real_guard_v.Ratelimit.{RateLimitStateRow}

-- `sent` are the requests that went to the provider.
pub record World : Type 0 where
  pub db : Db
  pub limits : List RateLimitStateRow
  pub sent : List Json

abbrev pub Act : Type 0 → Type 0
Act A = World → Result A × World

module _ {A : Type 0} where
  abbrev pub pure : A → Act A
  pure a w = (ok a, w)

  abbrev pub raise : Error → Act A
  raise e w = (err e, w)

  abbrev pub lift : Result A → Act A
  lift r w = (r, w)

abbrev pub continue : {A B : Type 0} → Result A → (A → Act B) → Act B
continue (ok a) f w = f a w
continue (err e) f w = (err e, w)

infixl 5 ◌>>=◌ ◌>>◌
abbrev pub ◌>>=◌ : {A B : Type 0} → Act A → (A → Act B) → Act B
◌>>=◌ m f w = let (r, w') = m w in continue r f w'

abbrev pub ◌>>◌ : {A B : Type 0} → Act A → Act B → Act B
m >> k = m >>= λ _. k

-- A transaction on the tables.
abbrev pub on_db : {A : Type 0} → Tx A → Act A
on_db m w = let (r, db') = m w.db in (r, record w { db = db' })

-- The call is made before its outcome is known.
abbrev pub call : (Json → Result Json) → Json → Act Json
call complete body w = (complete body, record w { sent = w.sent ++ body ∷ [] })

continue-keep :
    {A B C : Type 0} (π : World → C) (r : Result A) (k : A → Act B) (w : World)
    → ((a : A) (w' : World) → π (k a w').1 ≡ π w')
    → π (continue r k w).1 ≡ π w
continue-keep π (ok a) k w h = h a w
continue-keep π (err e) k w h = refl

-- What both parts of a chain leave alone, the chain leaves alone.
pub >>=-keep :
    {A B C : Type 0} (π : World → C) (m : Act A) (k : A → Act B) (w : World)
    → π (m w).1 ≡ π w
    → ((a : A) (w' : World) → π (k a w').1 ≡ π w')
    → π ((m >>= k) w).1 ≡ π w
>>=-keep π m k w h g = continue-keep π (m w).0 k (m w).1 g ∙ h

continue-eq-ok :
    {A B : Type 0} (r : Result A) (k : A → Act B) (w : World) {b : B}
    → (continue r k w).0 ≡ ok b
    → (a : A) × (r ≡ ok a) × (continue r k w ≡ k a w)
continue-eq-ok (ok a) k w h = (a, refl, refl)
continue-eq-ok (err e) k w h = cc

-- A chain that returns has returned from its first call.
pub >>=-eq-ok :
    {A B : Type 0} (m : Act A) (k : A → Act B) (w : World) {b : B}
    → ((m >>= k) w).0 ≡ ok b
    → (a : A) × ((m w).0 ≡ ok a) × ((m >>= k) w ≡ k a (m w).1)
>>=-eq-ok m k w h = continue-eq-ok (m w).0 k (m w).1 h

-- The same for a step that touches nothing.
pub lift-keep :
    {A B C : Type 0} (π : World → C) (r : Result A) (k : A → Act B) (w : World)
    → ((a : A) → π (k a w).1 ≡ π w)
    → π (continue r k w).1 ≡ π w
lift-keep π (ok a) k w h = h a
lift-keep π (err e) k w h = refl
