-- ===== src/Bootstrap/Refusal.antt =====
-- Parts of the handlers of pkg/bootstrap/server.go that change nothing and only refuse.
use opni_monitoring.Prelude.{
  Bool, true, false, ◌==◌, if◌then◌else◌, Result, ok, err, Error, ◌≡◌, refl, sym, ◌∙◌, ap,
}
use mathlib.Core.Path.{subst}
use opni_monitoring.Exec.{Exec}
use opni_monitoring.Bootstrap.{Response, send, crashed, Progress, respond, proceed, Handler, next}
use opni_monitoring.Bootstrap.Handler.{
  ◌>>=◌, stop, go_on, check, check_result, or_respond, bind_proceeds,
}

abbrev pub is_success : Response → Bool
is_success (send status body) = status == 200
is_success crashed = false

-- A part of a handler that changes nothing, and whose responses are refusals.
pub record Refuses {S A : Type 0} (m : Handler S A) : Type 0 where
  pub quiet : (s : S) → (m s).1 ≡ s
  pub refuses : (s : S) (r : Response) → (m s).0 ≡ respond r → is_success r ≡ false

next_quiet :
    {S A B : Type 0} (p : Progress A) (f : A → Handler S B) (t : S)
    → ((a : A) → Refuses (f a))
    → (next p f t).1 ≡ t
next_quiet (respond r) f t hf = refl
next_quiet (proceed a) f t hf = (hf a).quiet t

next-Refuses :
    {S A B : Type 0} (p : Progress A) (f : A → Handler S B) (t : S) (r : Response)
    → ((r : Response) → p ≡ respond r → is_success r ≡ false)
    → ((a : A) → Refuses (f a))
    → (next p f t).0 ≡ respond r
    → is_success r ≡ false
next-Refuses (respond x) f t r hp hf e = hp r (cc)
next-Refuses (proceed a) f t r hp hf e = (hf a).refuses t r e

pub Refuses-bind :
    {S A B : Type 0} (m : Handler S A) (f : A → Handler S B)
    → Refuses m
    → ((a : A) → Refuses (f a))
    → Refuses (m >>= f)
Refuses-bind m f hm hf = record {
  quiet = λ s. next_quiet (m s).0 f (m s).1 hf ∙ hm.quiet s;
  refuses = λ s r h. next-Refuses (m s).0 f (m s).1 r (hm.refuses s) hf h;
}

respond_injective :
    {A : Type 0} {r x : Response} → ◌≡◌ {A = Progress A} (respond r) (respond x) → r ≡ x
respond_injective h = cc

pub Refuses-check :
    {S A : Type 0} (m : Exec S A) (f : Error → Response)
    → ((s : S) → (m s).1 ≡ s)
    → ((e : Error) → is_success (f e) ≡ false)
    → Refuses (check m f)
Refuses-check {A} m f hm hf = record {
  quiet = hm;
  refuses = λ s r h. or_respond_refuses (m s).0 r h;
}
  where
    or_respond_refuses :
        (x : Result A) (r : Response) → or_respond x f ≡ respond r → is_success r ≡ false
    or_respond_refuses (ok a) r h = cc
    or_respond_refuses (err e) r h = ap is_success (sym (respond_injective h)) ∙ hf e

pub Refuses-check_result :
    {S A : Type 0} (x : Result A) (f : Error → Response)
    → ((e : Error) → is_success (f e) ≡ false)
    → Refuses {S = S} (check_result x f)
Refuses-check_result {S} x f hf = Refuses-check (λ (s : S). (x, s)) f (λ s. refl) hf

pub Refuses-stop :
    {S A : Type 0} (r : Response) → is_success r ≡ false → Refuses {S = S} {A = A} (stop r)
Refuses-stop r h = record {
  quiet = λ s. refl;
  refuses = λ s x e. ap is_success (sym (respond_injective e)) ∙ h;
}

pub past_stop :
    {S A : Type 0} (b : Bool) (r : Response) (m : Handler S A) (s : S) {a : A}
    → ((if b then stop r else m) s).0 ≡ proceed a
    → (m s).0 ≡ proceed a
past_stop true r m s h = cc
past_stop false r m s h = h

pub bind_quietly :
    {S A B : Type 0} (m : Handler S A) (f : A → Handler S B) (s : S) {b : B}
    → Refuses m
    → ((m >>= f) s).0 ≡ proceed b
    → (a : A) × ((m s).0 ≡ proceed a) × ((f a s).0 ≡ proceed b)
bind_quietly m f s {b} hm h =
    let (a, first, rest) = bind_proceeds m f s h in
    (a, first, subst (λ t. (f a t).0 ≡ proceed b) (hm.quiet s) rest)

pub Refuses-go_on : {S A : Type 0} (a : A) → Refuses {S = S} (go_on a)
Refuses-go_on a = record { quiet = λ s. refl; refuses = λ s x e. cc }

pub Refuses-if :
    {S A : Type 0} (b : Bool) (m n : Handler S A)
    → Refuses m
    → Refuses n
    → Refuses (if b then m else n)
Refuses-if true m n hm hn = hm
Refuses-if false m n hm hn = hn
