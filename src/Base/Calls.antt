-- ===== src/Base/Calls.antt =====
-- What a C++ call does: it returns, fails an `assert`, or leaves the process by `::exit`.
use mathlib.Core.Path.{◌≡◌, refl}
use mathlib.Core.Bool.{Bool, true, false, ◌&&◌}
use xtracepp.Base.Tests.{if◌then◌else◌}

pub data Outcome {ℓ} (A : Type ℓ) : Type ℓ where
  ok : A → Outcome A
  aborted : Outcome A
  exited : Outcome A

-- A statement after another: it is reached where that one returns.
infixl 5 ◌>>=◌
abbrev pub ◌>>=◌ {i j} :
    {Ret : Type i} {Next : Type j} → Outcome Ret → (Ret → Outcome Next) → Outcome Next
aborted >>= next = aborted
exited >>= next = exited
ok ret >>= next = next ret

infixl 5 ◌>>◌
abbrev pub ◌>>◌ {j} : {Next : Type j} → Outcome (Unit {0}) → Outcome Next → Outcome Next
call >> after = call >>= λ done. after

-- `assert( test )`.
abbrev pub require : Bool → Outcome (Unit {0})
require true = ok tt
require false = aborted

-- Where a whole call returns, both of its parts have returned.
pub >>=-eq-ok {i j} :
    {Ret : Type i} {Next : Type j} (call : Outcome Ret) (after : Ret → Outcome Next) {result : Next}
    → (call >>= after) ≡ ok result
    → (ret : Ret) × (call ≡ ok ret) × (after ret ≡ ok result)
>>=-eq-ok aborted after returns = cc
>>=-eq-ok exited after returns = cc
>>=-eq-ok (ok ret) after returns = (ret, refl, returns)

-- Where a call behind an `assert` returns, the test has held.
pub require-eq-ok {j} :
    {Next : Type j} (test : Bool) (after : Unit {0} → Outcome Next) {result : Next}
    → (require test >>= after) ≡ ok result
    → (test ≡ true) × (after tt ≡ ok result)
require-eq-ok true after returns = (refl, returns)
require-eq-ok false after returns = cc

pub ok-injective {i} : {Ret : Type i} {a b : Ret} → ok a ≡ ok b → a ≡ b
ok-injective same = cc

-- An `assert` as a test.
pub require-if {j} :
    {Next : Type j} (test : Bool) (call : Outcome Next)
    → (require test >> call) ≡ (if test then call else aborted)
require-if true call = refl
require-if false call = refl

-- Two tests in a row, and what follows a test.
pub if-if {j} :
    {Next : Type j} (one two : Bool) (call : Outcome Next)
    → (if one then (if two then call else aborted) else aborted)
      ≡ (if one && two then call else aborted)
if-if true two call = refl
if-if false two call = refl

pub if->>= {i j} :
    {Ret : Type i} {Next : Type j} (test : Bool) (ret : Ret) (after : Ret → Outcome Next)
    → ((if test then ok ret else aborted) >>= after) ≡ (if test then after ret else aborted)
if->>= true ret after = refl
if->>= false ret after = refl
