-- ===== src/Store/Janitor.antt =====
-- internal/store/janitor.go: the loop that purges the store at every tick until it is cancelled.
use secretstash.Base.{◌≡◌, refl, List, [], ◌∷◌}
use secretstash.Store.{Time, SecretId, Store, purge}
use secretstash.Store.Calls.{Call, purges, step, run}

-- What the select of the loop receives: the end of the context, or a tick, with the times that the purge
-- reads.
pub data Signal : Type 0 where
  cancelled : Signal
  ticked : Time → (SecretId → Time) → Signal

-- Janitor, on the signals that it receives.
unfoldable pub janitor : Store → List Signal → Store
janitor s [] = s
janitor s (cancelled ∷ signals) = s
janitor s (ticked now clock ∷ signals) = janitor (purge s now clock) signals

-- The calls of the store that it makes.
abbrev pub calls_of : List Signal → List Call
calls_of [] = []
calls_of (cancelled ∷ signals) = []
calls_of (ticked now clock ∷ signals) = purges now clock ∷ calls_of signals

-- The janitor is a history of purges.
pub janitor-run : (s : Store) (signals : List Signal) → janitor s signals ≡ run s (calls_of signals)
unfolding janitor run step
janitor-run s [] = refl
janitor-run s (cancelled ∷ signals) = refl
janitor-run s (ticked now clock ∷ signals) = janitor-run (purge s now clock) signals
