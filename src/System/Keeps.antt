-- ===== src/System/Keeps.antt =====
-- The rules of a property that a computation keeps: for `do` blocks over results with a database.
use bauth.Base.{
  ◌≡◌, refl, Bool, true, false, Option, none, some, Result, ok, err, ◌>>=◌, map_err, ok_or,
  if◌then◌else◌, arith,
}
use bauth.Errors.{ApiError}
use bauth.Handler.{App, settle, transact}
use bauth.OAuth.{OAuthError, finish}
use bauth.Schema.{Db}

-- If the computation ends well, the property holds of the state that it leaves.
pub record Keeps {E A S : Type 0} (P : S → Type 0) (r : Result E (A × S)) : Type 0 where
  pub holds : (answer : A) (left : S) → r ≡ ok (answer, left) → P left

pub map_err-eq-ok :
    {E F A : Type 0} (f : E → F) (r : Result E A) {a : A} → map_err f r ≡ ok a → r ≡ ok a
map_err-eq-ok f (ok a) h = ground arith
map_err-eq-ok f (err e) h = absurd (ground arith)

pub ok_or-eq-ok : {E A : Type 0} (o : Option A) (e : E) {a : A} → ok_or o e ≡ ok a → o ≡ some a
ok_or-eq-ok none e h = absurd (ground arith)
ok_or-eq-ok (some a) e h = ground arith

module _ {S : Type 0} (P : S → Type 0) where
  pub Keeps-bind :
      {E A B : Type 0} (m : Result E B) (f : B → Result E (A × S))
      → ((b : B) → m ≡ ok b → Keeps P (f b))
      → Keeps P (m >>= f)
  Keeps-bind (ok b) f k = k b refl
  Keeps-bind (err e) f k = record { holds = λ answer left h. absurd (ground arith) }

  pub Keeps-ok :
      {E A : Type 0} (answer : A) (left : S) → P left → Keeps {E = E} P (ok (answer, left))
  Keeps-ok answer left p = record {
    holds = λ a l h. let same : left ≡ l = ground arith in rw (← same) p;
  }

  pub Keeps-if :
      {E A : Type 0} (b : Bool) (r s : Result E (A × S))
      → Keeps P r
      → Keeps P s
      → Keeps P (if b then r else s)
  Keeps-if true r s p q = p
  Keeps-if false r s p q = q

module _ (P : Db → Type 0) where
  pub finish_keeps :
      {A : Type 0} (db : Db) (r : Result OAuthError (Result OAuthError A × Db))
      → P db
      → Keeps P r
      → P (finish db r).1
  finish_keeps db (err e) h k = h
  finish_keeps db (ok (answer, left)) h k = k.holds answer left refl

  pub transact_keeps :
      {A : Type 0} (app : App) (r : Result ApiError (Result ApiError A × Db))
      → P app.db
      → Keeps P r
      → P (transact app r).1.db
  transact_keeps app (err e) h k = h
  transact_keeps app (ok (answer, left)) h k = k.holds answer left refl

  pub settle_keeps :
      {A : Type 0} (app : App) (r : Result ApiError (Result ApiError A × App))
      → P app.db
      → Keeps (λ left. P left.db) r
      → P (settle app r).1.db
  settle_keeps app (err e) h k = h
  settle_keeps app (ok (answer, left)) h k = k.holds answer left refl
