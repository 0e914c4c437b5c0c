-- ===== src/Controller/Trace.antt =====
-- How a run of internal/controller moves the cluster: by the writes that it sends and by readings of
-- the clock.
pub mod Server
pub mod Route
pub mod Upstream
use nginx_operator.Base.{
  String, ◌≡◌, refl, Bool, true, false, if◌then◌else◌, List, [], ◌∷◌, ◌++◌, Option, none, some, All,
}
use nginx_operator.Controller.Run.{Run, return, ask, ◌>>=◌}
use nginx_operator.Controller.Cluster.{Cluster, Verdict, Write, send, read_clock}
use nginx_operator.Controller.Verdicts.{unless_failed}

module _ {W : Type 0} (cluster : Cluster W) where
  -- From the first world the writes, in this order, and readings of the clock lead to the last one.
  pub data IsTrace : W → List Write → W → Type 0 where
    ended : {w : W} → IsTrace w [] w
    sent :
        {w v : W} (write : Write) {writes : List Write}
        → IsTrace (cluster.apply write w).0 writes v
        → IsTrace w (write ∷ writes) v
    ticked :
        {w v : W} {writes : List Write} → IsTrace (cluster.clock w).0 writes v → IsTrace w writes v

  IsTrace-append :
      {u v w : W} {xs ys : List Write} → IsTrace u xs v → IsTrace v ys w → IsTrace u (xs ++ ys) w
  IsTrace-append ended more = more
  IsTrace-append (sent write trace) more = sent write (IsTrace-append trace more)
  IsTrace-append (ticked trace) more = ticked (IsTrace-append trace more)

  -- What every write that satisfies `P` keeps, and the clock, a trace of such writes keeps.
  pub trace_invariant :
      {P : Write → Type 0} (Inv : W → Type 0)
      → ((write : Write) (w : W) → P write → Inv w → Inv (cluster.apply write w).0)
      → ((w : W) → Inv w → Inv (cluster.clock w).0)
      → {u v : W} {writes : List Write} → IsTrace u writes v
      → All P writes
      → Inv u
      → Inv v
  trace_invariant Inv keep tick ended ps start = start
  trace_invariant Inv keep tick (sent write trace) (p, ps) start =
      trace_invariant Inv keep tick trace ps (keep write _ p start)
  trace_invariant Inv keep tick (ticked trace) ps start =
      trace_invariant Inv keep tick trace ps (tick _ start)

  -- From every world, a run moves the cluster by the writes that it tells of.
  pub record Traces {A : Type 0} (m : Run W Write A) : Type 0 where
    pub traced : (w : W) → IsTrace w (m w).calls (m w).world

  pub return-Traces : {A : Type 0} (a : A) → Traces (return a)
  unfolding return
  return-Traces a = record { traced = λ w. ended }

  pub ask-Traces : {A : Type 0} (f : W → A) → Traces (ask f)
  unfolding ask
  ask-Traces f = record { traced = λ w. ended }

  pub send-Traces : (write : Write) → Traces (send cluster write)
  unfolding send
  send-Traces write = record { traced = λ w. sent write ended }

  pub read_clock-Traces : Traces (read_clock cluster)
  unfolding read_clock
  read_clock-Traces = record { traced = λ w. ticked ended }

  pub bind-Traces :
      {A B : Type 0} (m : Run W Write A) (f : A → Run W Write B)
      → Traces m
      → ((a : A) → Traces (f a))
      → Traces (m >>= f)
  unfolding ◌>>=◌
  bind-Traces m f first next = record {
    traced = λ w. IsTrace-append (first.traced w) ((next (m w).value).traced (m w).world);
  }

  pub if-Traces :
      {A : Type 0} (b : Bool) (m n : Run W Write A)
      → Traces m
      → Traces n
      → Traces (if b then m else n)
  if-Traces true m n h k = h
  if-Traces false m n h k = k

  pub unless_failed-Traces :
      (prefix : String) (rest : Run W Write Verdict) (problem : Option String)
      → Traces rest
      → Traces (unless_failed prefix rest problem)
  unfolding unless_failed
  unless_failed-Traces prefix rest none h = h
  unless_failed-Traces prefix rest (some problem) h = return-Traces _

  -- A write, with what follows on its outcome.
  pub send_then-Traces :
      {A : Type 0} (write : Write) (f : Option String → A)
      → Traces (send cluster write >>= (λ problem. return (f problem)))
  send_then-Traces write f = bind-Traces _ _ (send-Traces write) (λ problem. return-Traces _)
