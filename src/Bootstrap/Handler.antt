-- ===== src/Bootstrap/Handler.antt =====
-- Handlers chained by do blocks: the first response ends the handler.
use opni_monitoring.Prelude.{Result, ok, err, Error, ◌≡◌, refl}
use opni_monitoring.Exec.{Exec}
use opni_monitoring.Bootstrap.{Progress, respond, proceed, Handler, Response, next}

module _ {S A B : Type 0} where
  infixl 5 ◌>>=◌ ◌>>◌
  abbrev pub ◌>>=◌ : Handler S A → (A → Handler S B) → Handler S B
  ◌>>=◌ m f s = let (p, s') = m s in next p f s'

  abbrev pub ◌>>◌ : Handler S A → Handler S B → Handler S B
  m >> n = m >>= λ _. n

  next_proceeds :
      (p : Progress A) (f : A → Handler S B) (s : S) {b : B}
      → (next p f s).0 ≡ proceed b
      → (a : A) × (p ≡ proceed a) × ((f a s).0 ≡ proceed b)
  next_proceeds (respond r) f s h = cc
  next_proceeds (proceed a) f s h = (a, refl, h)

  -- A chain that goes on went on at its first part.
  pub bind_proceeds :
      (m : Handler S A) (f : A → Handler S B) (s : S) {b : B}
      → ((m >>= f) s).0 ≡ proceed b
      → (a : A) × ((m s).0 ≡ proceed a) × ((f a (m s).1).0 ≡ proceed b)
  bind_proceeds m f s h = next_proceeds (m s).0 f (m s).1 h

abbrev pub or_respond : {A : Type 0} → Result A → (Error → Response) → Progress A
or_respond (ok a) f = proceed a
or_respond (err e) f = respond (f e)

pub or_respond_proceeds :
    {A : Type 0} (r : Result A) (f : Error → Response) {a : A}
    → or_respond r f ≡ proceed a
    → r ≡ ok a
or_respond_proceeds (ok a) f h = cc
or_respond_proceeds (err e) f h = cc

module _ {S A : Type 0} where
  abbrev pub stop : Response → Handler S A
  stop r s = (respond r, s)

  abbrev pub go_on : A → Handler S A
  go_on a s = (proceed a, s)

  -- if err != nil { return response }
  abbrev pub check : Exec S A → (Error → Response) → Handler S A
  check m f s = let (r, s') = m s in (or_respond r f, s')

  abbrev pub check_result : Result A → (Error → Response) → Handler S A
  check_result r f s = (or_respond r f, s)
