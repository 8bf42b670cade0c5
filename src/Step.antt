-- ===== src/Step.antt =====
-- Methods that change an object and may raise: what they did to the state stays when they raise.
use llm_errata.Prelude.{◌≡◌, refl}
use llm_errata.Errors.{Result, ok, raise, Exception}

abbrev pub Step {ℓ κ} : Type ℓ → Type κ → Type (ℓ ⊔ κ)
Step S A = S → S × Result A

abbrev pub bind {ℓ κ μ} :
    {S : Type ℓ} {A : Type κ} {B : Type μ} → S × Result A → (A → Step S B) → S × Result B
bind (s, ok a) f = f a s
bind (s, raise e) f = (s, raise e)

infixl 5 ◌>>=◌ ◌>>◌
abbrev pub ◌>>=◌ {ℓ κ μ} :
    {S : Type ℓ} {A : Type κ} {B : Type μ} → Step S A → (A → Step S B) → Step S B
m >>= f = λ s. bind (m s) f

abbrev pub ◌>>◌ {ℓ κ} : {S : Type ℓ} {B : Type κ} → Step S (Unit {0}) → Step S B → Step S B
m >> k = m >>= λ _. k

abbrev pub done {ℓ κ} : {S : Type ℓ} {A : Type κ} → A → Step S A
done a = λ s. (s, ok a)

abbrev pub fail {ℓ κ} : {S : Type ℓ} {A : Type κ} → Exception → Step S A
fail e = λ s. (s, raise e)

-- What a method returns that does not change the state.
abbrev pub lift {ℓ κ} : {S : Type ℓ} {A : Type κ} → (S → Result A) → Step S A
lift f = λ s. (s, f s)

abbrev pub read {ℓ κ} : {S : Type ℓ} {A : Type κ} → (S → A) → Step S A
read f = λ s. (s, ok (f s))

abbrev pub modify {ℓ} : {S : Type ℓ} → (S → S) → Step S (Unit {0})
modify f = λ s. (f s, ok tt)

-- What a chain that returns went through.
pub bind-eq-ok {ℓ κ μ} :
    {S : Type ℓ} {A : Type κ} {B : Type μ} (r : S × Result A) (f : A → Step S B) {s : S} {b : B}
    → bind r f ≡ (s, ok b)
    → (s1 : S) × (a : A) × (r ≡ (s1, ok a)) × (f a s1 ≡ (s, ok b))
bind-eq-ok (s1, ok a) f h = (s1, a, refl, h)
bind-eq-ok (s1, raise e) f h = cc

-- The same for a step that only reads.
pub lift-eq-ok {ℓ κ μ} :
    {S : Type ℓ} {A : Type κ} {B : Type μ} (s1 : S) (r : Result A) (f : A → Step S B) {s : S}
    {b : B}
    → bind (s1, r) f ≡ (s, ok b)
    → (a : A) × (r ≡ ok a) × (f a s1 ≡ (s, ok b))
lift-eq-ok s1 (ok a) f h = (a, refl, h)
lift-eq-ok s1 (raise e) f h = cc
