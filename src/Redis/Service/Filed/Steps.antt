-- ===== src/Redis/Service/Filed/Steps.antt =====
-- packages/redis/src/service.ts: the steps of the service that keep every finished request filed once
-- under its id, and the operators that keep it.
use dynamic_conversion_servi.Prelude.{
  String, Bool, true, false, Option, none, some, [], ◌∷◌, str_eq, arith, if◌then◌else◌,
}
use dynamic_conversion_servi.Prelude.Dict.{Dict, lookup, erase, lookup-erase}
use dynamic_conversion_servi.Prelude.Action.{
  Result, ok, err, Action, pure, gets, modify, or_raise, ◌>>=◌, ◌>>◌,
}
use dynamic_conversion_servi.Prelude.Hoare.{Kept, Keeps, Any, Keeps-bind}
use dynamic_conversion_servi.Docker.{DockerState}
use dynamic_conversion_servi.AutoScaler.{ScalerError}
use dynamic_conversion_servi.Redis.Request.{FinishedRequest}
use dynamic_conversion_servi.Redis.Worker.{Handler}
use dynamic_conversion_servi.Redis.Worker.Network.{Remote}
use dynamic_conversion_servi.Redis.Wrapper.{WrapperAction}
use dynamic_conversion_servi.Redis.Service.{
  ServiceState, ServiceError, Service, scaler, wrapper, handler, remote_handler, outside,
}
use dynamic_conversion_servi.Redis.Service.Loop.{logged, attempt}
use dynamic_conversion_servi.Redis.Service.Lifetime.{IsFiled}

pub erase-IsFiled :
    (id : String) (dict : Dict FinishedRequest) → IsFiled dict → IsFiled (erase id dict)
unfolding erase lookup
erase-IsFiled id [] h = tt
erase-IsFiled id ((key, f) ∷ rest) (own, once, h) = by_key (str_eq key id) (erase-IsFiled id rest h)
  where
    by_key :
        (same : Bool)
        → IsFiled (erase id rest)
        → IsFiled (if same then erase id rest else (key, f) ∷ erase id rest)
    by_key true later = later
    by_key false later = (own, ground (arith, once, lookup-erase id key rest), later)

abbrev pub HasFiled : {W : Type 0} → ServiceState W → Type 0
HasFiled s = IsFiled s.finished_request

-- A step of the service that ends with every finished request filed once under its id when it started
-- so, whether it returns or throws.
pub record KeepsFiled {W E A : Type 0} (m : Service W E A) : Type 0 where
  pub keeps : Keeps HasFiled Any m

kept :
    {W E A : Type 0} (r : Result (ServiceError E) A) (t : ServiceState W)
    → HasFiled t
    → Kept HasFiled Any (r, t)
kept (ok a) t h = (h, tt)
kept (err e) t h = h

pub state_of :
    {W E A : Type 0} (r : Result (ServiceError E) A × ServiceState W)
    → Kept HasFiled Any r
    → HasFiled r.1
state_of (ok a, t) h = h.0
state_of (err e, t) h = h

pub bind :
    {W E A B : Type 0} {m : Service W E A} {f : A → Service W E B}
    → KeepsFiled m
    → ((a : A) → KeepsFiled (f a))
    → KeepsFiled (m >>= f)
bind {m = m} {f = f} h k = record {
  keeps = Keeps-bind HasFiled Any Any m f h.keeps (λ a _. (k a).keeps);
}

pub next :
    {W E A B : Type 0} {m : Service W E A} {n : Service W E B}
    → KeepsFiled m
    → KeepsFiled n
    → KeepsFiled (m >> n)
next h k = bind h λ _. k

steps-KeepsFiled :
    {W E A : Type 0} {m : Service W E A}
    → ((s : ServiceState W) → HasFiled s → HasFiled (m s).1)
    → KeepsFiled m
steps-KeepsFiled {m = m} h = record { keeps = λ s p. kept (m s).0 (m s).1 (h s p) }

pub scaler-KeepsFiled :
    {W E A : Type 0} (m : Action (DockerState W) (ScalerError E) A) → KeepsFiled (scaler m)
scaler-KeepsFiled m = steps-KeepsFiled λ s h. h

pub or_raise-KeepsFiled :
    {W E A : Type 0} (a : Option A) (e : ServiceError E) → KeepsFiled {W = W} (or_raise a e)
or_raise-KeepsFiled none e = record { keeps = λ s h. h }
or_raise-KeepsFiled (some a) e = record { keeps = λ s h. (h, tt) }

pub attempt-KeepsFiled :
    {W E A : Type 0} {m : Service W E A} → KeepsFiled m → KeepsFiled (attempt m)
attempt-KeepsFiled {W} {E} {A} {m = m} h = record { keeps = λ s p. of_result s (m s) (h.keeps s p) }
  where
    of_result :
        (s : ServiceState W) (r : Result (ServiceError E) A × ServiceState W)
        → Kept HasFiled Any r
        → Kept HasFiled Any (attempt (λ _. r) s)
    of_result s (ok a, t) k = (k.0, tt)
    of_result s (err e, t) k = (k, tt)

pub logged-KeepsFiled :
    {W E : Type 0} {m : Service W E (Unit {0})} → KeepsFiled m → KeepsFiled (logged m)
logged-KeepsFiled {m = m} h = record { keeps = λ s p. (state_of (m s) (h.keeps s p), tt) }

pub if-KeepsFiled :
    {W E A : Type 0} (b : Bool) {m n : Service W E A}
    → KeepsFiled m
    → KeepsFiled n
    → KeepsFiled (if b then m else n)
if-KeepsFiled true h k = h
if-KeepsFiled false h k = k

pub wrapper-KeepsFiled : {W E A : Type 0} (m : WrapperAction W A) → KeepsFiled (wrapper {E = E} m)
wrapper-KeepsFiled m = steps-KeepsFiled λ s h. h

pub handler-KeepsFiled : {W E A : Type 0} (m : Handler A) → KeepsFiled (handler {W = W} {E = E} m)
handler-KeepsFiled m = steps-KeepsFiled λ s h. h

pub remote_handler-KeepsFiled :
    {W E A : Type 0} (m : Remote W A) → KeepsFiled (remote_handler {E = E} m)
remote_handler-KeepsFiled m = steps-KeepsFiled λ s h. h

pub pure-KeepsFiled : {W E A : Type 0} (a : A) → KeepsFiled {W = W} {E = E} (pure a)
pure-KeepsFiled a = steps-KeepsFiled λ s h. h

pub gets-KeepsFiled : {W E A : Type 0} (f : ServiceState W → A) → KeepsFiled {E = E} (gets f)
gets-KeepsFiled f = steps-KeepsFiled λ s h. h

pub modify-KeepsFiled :
    {W E : Type 0} (f : ServiceState W → ServiceState W)
    → ((s : ServiceState W) → HasFiled s → HasFiled (f s))
    → KeepsFiled {E = E} (modify f)
modify-KeepsFiled f h = steps-KeepsFiled h

pub outside-KeepsFiled : {W E A : Type 0} (f : W → A × W) → KeepsFiled (outside {E = E} f)
outside-KeepsFiled f = steps-KeepsFiled λ s h. h
