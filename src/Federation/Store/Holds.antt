-- ===== src/Federation/Store/Holds.antt =====
-- The invariant of the federations' database, and inversions for its transactions.
pub use cernere.Base.{ok_value}
use cernere.Base.{◌≡◌, refl, Result, ok, ◌>>=◌, AppError, arith}
use cernere.Federation.Policy.{Decision, allowed, refused}
use cernere.Federation.Tables.{IsConsistent}
use cernere.Federation.Store.{FederationDb, or_refuse}

abbrev pub Holds : FederationDb → Type 0
Holds db = IsConsistent db.account_federations db.account_federation_members

pub or_refuse-eq-ok :
    {P R B : Type 0} (d : Decision P R) (f : R → AppError) (k : P → Result B) {b : B}
    → (or_refuse d f >>= k) ≡ ok b
    → (p : P) × (d ≡ allowed p) × (k p ≡ ok b)
or_refuse-eq-ok (allowed p) f k h = (p, refl, h)
or_refuse-eq-ok (refused r) f k h = cc

pub ok_state :
    {A B : Type 0} {a a' : A} {b b' : B}
    → ◌≡◌ {A = Result (A × B)} (ok (a, b)) (ok (a', b'))
    → b ≡ b'
ok_state h = ground arith
