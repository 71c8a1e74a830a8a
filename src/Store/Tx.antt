-- ===== src/Store/Tx.antt =====
-- Calls inside `immediate_transaction` (app/db.py). A call returns its result and the tables as
-- far as it wrote them; the transaction commits the writes of a call that returns, and rolls back
-- those of a call that raises.
use real_guard_v.Prelude.{String, ◌≡◌, refl, Option, arith, ◌∙◌}
use real_guard_v.Errors.{Error, Result, ok, err}
use real_guard_v.Store.{Db, ApprovalRow, TransactionRow, DecisionRow}
use real_guard_v.Store.Table.{find, update}

abbrev pub Tx : Type 0 → Type 0
Tx A = Db → Result A × Db

module _ {A : Type 0} where
  abbrev pub pure : A → Tx A
  pure a db = (ok a, db)

  abbrev pub raise : Error → Tx A
  raise e db = (err e, db)

  abbrev pub lift : Result A → Tx A
  lift r db = (r, db)

  abbrev pub gets : (Db → A) → Tx A
  gets f db = (ok (f db), db)

abbrev pub continue : {A B : Type 0} → Result A → (A → Tx B) → Tx B
continue (ok a) f db = f a db
continue (err e) f db = (err e, db)

infixl 5 ◌>>=◌ ◌>>◌
abbrev pub ◌>>=◌ : {A B : Type 0} → Tx A → (A → Tx B) → Tx B
◌>>=◌ m f db = let (r, db') = m db in continue r f db'

abbrev pub ◌>>◌ : {A B : Type 0} → Tx A → Tx B → Tx B
m >> k = m >>= λ _. k

abbrev pub modify : (Db → Db) → Tx (Unit {0})
modify f db = (ok tt, f db)

-- `commit` of what a call wrote, or `rollback` to what was there before.
abbrev settle : {A : Type 0} → Db → Result A → Db → Result A × Db
settle before (ok a) after = (ok a, after)
settle before (err e) after = (err e, before)

unfoldable pub immediate_transaction : {A : Type 0} → Tx A → Tx A
immediate_transaction m db = let (r, db') = m db in settle db r db'

settle-err :
    {A : Type 0} (db : Db) (r : Result A) (db' : Db) {e : Error}
    → (settle db r db').0 ≡ err e
    → (settle db r db').1 ≡ db
settle-err db (ok a) db' h = cc
settle-err db (err e) db' h = refl

-- A raise leaves the tables as they were.
pub immediate_transaction-err :
    {A : Type 0} (m : Tx A) (db : Db) {e : Error}
    → (immediate_transaction m db).0 ≡ err e
    → (immediate_transaction m db).1 ≡ db
unfolding immediate_transaction
immediate_transaction-err m db h = let (r, db') = m db in settle-err db r db' h

settle-0 : {A : Type 0} (db : Db) (r : Result A) (db' : Db) → (settle db r db').0 ≡ r
settle-0 db (ok a) db' = refl
settle-0 db (err e) db' = refl

-- The result is that of the body.
pub immediate_transaction-0 :
    {A : Type 0} (m : Tx A) (db : Db) → (immediate_transaction m db).0 ≡ (m db).0
unfolding immediate_transaction
immediate_transaction-0 m db = let (r, db') = m db in settle-0 db r db'

settle-ok :
    {A : Type 0} (db : Db) (r : Result A) (db' : Db) {a : A} → r ≡ ok a → settle db r db' ≡ (r, db')
settle-ok db (ok a) db' h = refl
settle-ok db (err e) db' h = cc

-- A body that returns is committed.
pub immediate_transaction-ok :
    {A : Type 0} (m : Tx A) (db : Db) {a : A} → (m db).0 ≡ ok a → immediate_transaction m db ≡ m db
unfolding immediate_transaction
immediate_transaction-ok m db h = let (r, db') = m db in settle-ok db r db' h

settle-raise :
    {A : Type 0} (db : Db) (r : Result A) (db' : Db) {e : Error}
    → r ≡ err e
    → settle db r db' ≡ (err e, db)
settle-raise db (ok a) db' h = cc
settle-raise db (err e) db' h = ground arith

-- A body that raises is rolled back.
pub immediate_transaction-raise :
    {A : Type 0} (m : Tx A) (db : Db) {e : Error}
    → (m db).0 ≡ err e
    → immediate_transaction m db ≡ (err e, db)
unfolding immediate_transaction
immediate_transaction-raise m db h = let (r, db') = m db in settle-raise db r db' h

abbrev pub approval_key : ApprovalRow → String
approval_key r = r.id

abbrev pub transaction_key : TransactionRow → String
transaction_key r = r.id

abbrev pub decision_key : DecisionRow → String
decision_key r = r.idempotency_key

-- `session.get(ApprovalRow, id)`, `session.get(TransactionRow, id)` and
-- `query(ApprovalDecisionRow).filter_by(idempotency_key=key).one_or_none()`
abbrev pub get_approval : String → Db → Option ApprovalRow
get_approval k db = find approval_key k db.approvals

abbrev pub get_transaction : String → Db → Option TransactionRow
get_transaction k db = find transaction_key k db.transactions

abbrev pub get_decision : String → Db → Option DecisionRow
get_decision k db = find decision_key k db.decisions

-- `session.add` of a row that was read and changed.
abbrev pub save_approval : ApprovalRow → Db → Db
save_approval r db = record db { approvals = update approval_key r db.approvals }

abbrev pub save_transaction : TransactionRow → Db → Db
save_transaction r db = record db { transactions = update transaction_key r db.transactions }

-- A step that reads no table either raises, or goes on.
pub lift_both :
    {A B : Type 0} (P : Result B × Db → Type 0) (r : Result A) (f : A → Tx B) (db : Db)
    → ((e : Error) → P (err e, db))
    → ((a : A) → r ≡ ok a → P (f a db))
    → P ((lift r >>= f) db)
lift_both P (ok a) f db raised going = going a refl
lift_both P (err e) f db raised going = raised e

continue-pure-1 :
    {A B : Type 0} (r : Result A) (b : B) (db : Db) → (continue r (λ _. pure b) db).1 ≡ db
continue-pure-1 (ok a) b db = refl
continue-pure-1 (err e) b db = refl

-- An answer after a call writes nothing more.
pub >>-pure-1 : {B : Type 0} (m : Tx Unit) (b : B) (db : Db) → ((m >> pure b) db).1 ≡ (m db).1
>>-pure-1 m b db = let (r, db') = m db in continue-pure-1 r b db'

continue-eq-ok :
    {A B : Type 0} (r : Result A) (f : A → Tx B) (db : Db) {b : B}
    → (continue r f db).0 ≡ ok b
    → (a : A) × (r ≡ ok a) × (continue r f db ≡ f a db)
continue-eq-ok (ok a) f db h = (a, refl, refl)
continue-eq-ok (err e) f db h = cc

-- A chain that returns has returned from its first call.
pub >>=-eq-ok :
    {A B : Type 0} (m : Tx A) (f : A → Tx B) (db : Db) {b : B}
    → ((m >>= f) db).0 ≡ ok b
    → (a : A) × ((m db).0 ≡ ok a) × ((m >>= f) db ≡ f a (m db).1)
>>=-eq-ok m f db h = let (r, db') = m db in continue-eq-ok r f db' h

continue-keep :
    {A B C : Type 0} (π : Db → C) (r : Result A) (k : A → Tx B) (db : Db)
    → ((a : A) (db' : Db) → π (k a db').1 ≡ π db')
    → π (continue r k db).1 ≡ π db
continue-keep π (ok a) k db h = h a db
continue-keep π (err e) k db h = refl

-- What both parts of a chain leave alone, the chain leaves alone.
pub >>=-keep :
    {A B C : Type 0} (π : Db → C) (m : Tx A) (k : A → Tx B) (db : Db)
    → π (m db).1 ≡ π db
    → ((a : A) (db' : Db) → π (k a db').1 ≡ π db')
    → π ((m >>= k) db).1 ≡ π db
>>=-keep π m k db h g = continue-keep π (m db).0 k (m db).1 g ∙ h

settle-keep :
    {A C : Type 0} (π : Db → C) (db : Db) (r : Result A) (db' : Db)
    → π db' ≡ π db
    → π (settle db r db').1 ≡ π db
settle-keep π db (ok a) db' h = h
settle-keep π db (err e) db' h = refl

pub immediate_transaction-keep :
    {A C : Type 0} (π : Db → C) (m : Tx A) (db : Db)
    → π (m db).1 ≡ π db
    → π (immediate_transaction m db).1 ≡ π db
unfolding immediate_transaction
immediate_transaction-keep π m db h = settle-keep π db (m db).0 (m db).1 h
