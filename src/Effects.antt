-- ===== src/Effects.antt =====
-- Python statements that change an object and may raise: an action returns the object with its
-- result, since what was assigned before a `raise` stays assigned.
use agentic_alpha_engine.Prelude.{◌⊎◌, inl, inr, ◌≡◌, refl, arith, String, Bool, true, false}

-- An exception, by its class, with its text. `other` is any further subclass of `Exception`.
pub data Error : Type 0 where
  value_error key_error type_error runtime_error job_cancelled : String → Error
  other : (class message : String) → Error

-- an exception's class name and its text
abbrev pub class_name : Error → String
class_name (value_error m) = "ValueError"
class_name (key_error m) = "KeyError"
class_name (type_error m) = "TypeError"
class_name (runtime_error m) = "RuntimeError"
class_name (job_cancelled m) = "JobCancelled"
class_name (other c m) = c

abbrev pub error_text : Error → String
error_text (value_error m) = m
error_text (key_error m) = m
error_text (type_error m) = m
error_text (runtime_error m) = m
error_text (job_cancelled m) = m
error_text (other c m) = m

pub data Result {ℓ} (A : Type ℓ) : Type ℓ where
  ok : A → Result A
  err : Error → Result A

pub ok_injective {ℓ} : {A : Type ℓ} {a b : A} → ok a ≡ ok b → a ≡ b
ok_injective h = ground arith

pub result_cases :
    {A : Type 0} (r : Result A) → ((a : A) × (r ≡ ok a)) ⊎ ((e : Error) × (r ≡ err e))
result_cases (ok a) = inl (a, refl)
result_cases (err e) = inr (e, refl)

abbrev pub Exec : Type 0 → Type 0 → Type 0
Exec S A = S → Result A × S

module _ {S A : Type 0} where
  abbrev pub return : A → Exec S A
  return a s = (ok a, s)

  abbrev pub raise : Error → Exec S A
  raise e s = (err e, s)

  abbrev pub gets : (S → A) → Exec S A
  gets f s = (ok (f s), s)

  abbrev pub from_result : Result A → Exec S A
  from_result r s = (r, s)

module _ {S : Type 0} where
  abbrev pub modify : (S → S) → Exec S (Unit {0})
  modify f s = (ok tt, f s)

  abbrev pub require : Bool → Error → Exec S (Unit {0})
  require true e s = (ok tt, s)
  require false e s = (err e, s)

module _ {S A B : Type 0} where
  abbrev pub continue : Result A → (A → Exec S B) → Exec S B
  continue (ok a) f s = f a s
  continue (err e) f s = (err e, s)

  infixl 5 ◌>>=◌ ◌>>◌
  abbrev pub ◌>>=◌ : Exec S A → (A → Exec S B) → Exec S B
  m >>= f = λ s. continue (m s).0 f (m s).1

  abbrev pub ◌>>◌ : Exec S A → Exec S B → Exec S B
  m >> n = m >>= λ _. n

-- `P` holds after the action, whether it returned or raised, wherever it held before.
pub record Keeps {S A : Type 0} (P : S → Type 0) (m : Exec S A) : Type 0 where
  pub at : (s : S) → P s → P (m s).1

module _ {S A : Type 0} {P : S → Type 0} where
  pub Keeps-return : (a : A) → Keeps P (return a)
  Keeps-return a = record { at = λ s h. h }

  pub Keeps-raise : (e : Error) → Keeps P (raise {A = A} e)
  Keeps-raise e = record { at = λ s h. h }

  pub Keeps-gets : (f : S → A) → Keeps P (gets f)
  Keeps-gets f = record { at = λ s h. h }

module _ {S A B : Type 0} {P : S → Type 0} where
  Keeps-continue :
      (r : Result A) (f : A → Exec S B) → ((a : A) → Keeps P (f a)) → Keeps P (continue r f)
  Keeps-continue (ok a) f kf = kf a
  Keeps-continue (err e) f kf = record { at = λ s h. h }

  pub Keeps-bind :
      (m : Exec S A) (f : A → Exec S B) → Keeps P m → ((a : A) → Keeps P (f a)) → Keeps P (m >>= f)
  Keeps-bind m f km kf = record { at = λ s h. (Keeps-continue (m s).0 f kf).at (m s).1 (km.at s h) }

-- Every value that the action returns satisfies `P`.
pub record Returns {S A : Type 0} (P : A → Type 0) (m : Exec S A) : Type 0 where
  pub holds : (s : S) (a : A) → (m s).0 ≡ ok a → P a

module _ {S A : Type 0} {P : A → Type 0} where
  pub Returns-result :
      (r : Result A) → ((a : A) → r ≡ ok a → P a) → Returns P (from_result {S = S} r)
  Returns-result r h = record { holds = λ s a e. h a e }

module _ {S A B : Type 0} {P : B → Type 0} where
  Returns-continue :
      (r : Result A) (f : A → Exec S B) → ((a : A) → Returns P (f a)) → Returns P (continue r f)
  Returns-continue (ok a) f hf = hf a
  Returns-continue (err e) f hf = record { holds = λ s b h. ground arith }

  pub Returns-bind :
      (m : Exec S A) (f : A → Exec S B) → ((a : A) → Returns P (f a)) → Returns P (m >>= f)
  Returns-bind m f hf = record {
    holds = λ s b h. (Returns-continue (m s).0 f hf).holds (m s).1 b h;
  }

module _ {S A B : Type 0} {Q : A → Type 0} {P : B → Type 0} where
  Returns-continue_then :
      (r : Result A) (f : A → Exec S B)
      → ((a : A) → r ≡ ok a → Q a)
      → ((a : A) → Q a → Returns P (f a))
      → Returns P (continue r f)
  Returns-continue_then (ok a) f hr hf = hf a (hr a refl)
  Returns-continue_then (err e) f hr hf = record { holds = λ s b h. ground arith }

  pub Returns-then :
      (m : Exec S A) (f : A → Exec S B)
      → Returns Q m
      → ((a : A) → Q a → Returns P (f a))
      → Returns P (m >>= f)
  Returns-then m f hm hf = record {
    holds = λ s b h. (Returns-continue_then (m s).0 f (hm.holds s) hf).holds (m s).1 b h;
  }
