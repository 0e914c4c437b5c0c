-- ===== src/Reloader/Main/Laws.antt =====
-- How `main` of cmd/reloader/main.go ends.
use nginx_operator.Base.{Bool, true, false, List, [], ◌∷◌}
use nginx_operator.Reloader.Check.{Reloader, Round}
use nginx_operator.Reloader.Main.{Event, tick, signalled, cancelled}

-- The ticks at the head of a list of events.
abbrev pub rounds_of : List Event → List Round
rounds_of [] = []
rounds_of (tick round ∷ events) = round ∷ rounds_of events
rounds_of (signalled signal ∷ events) = []
rounds_of (cancelled ∷ events) = []

-- Something else than a tick was received.
abbrev pub is_ended : List Event → Bool
is_ended [] = false
is_ended (tick round ∷ events) = is_ended events
is_ended (signalled signal ∷ events) = true
is_ended (cancelled ∷ events) = true
