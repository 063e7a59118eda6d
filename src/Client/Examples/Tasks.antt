-- ===== src/Client/Examples/Tasks.antt =====
-- Two tasks for one resource, of which the one that was spawned first takes the entry last.
use tugboat.Base.{◌≡◌, refl, true, false}
use tugboat.Client.Queue.{
  Queue, new, spawn, register, waiting, is_cancelled, IsReachable, start, step, spawns, registers,
}
use tugboat.Client.Queue.Exclusion.{IsExclusive, reachable-IsExclusive}

abbrev two_spawned : Queue
two_spawned = spawn "ns/a" (spawn "ns/a" new)

abbrev newer_first : Queue
newer_first = register 1 "ns/a" two_spawned

abbrev older_last : Queue
older_last = register 0 "ns/a" newer_first

newer_waits : two_spawned.phase 1 ≡ waiting "ns/a"
unfolding spawn new
newer_waits = refl

older_waits : newer_first.phase 0 ≡ waiting "ns/a"
unfolding spawn new register
older_waits = refl

older_cancels_newer : (is_cancelled older_last 1 ≡ true) × (is_cancelled older_last 0 ≡ false)
unfolding spawn new register
older_cancels_newer = (refl, refl)

older_last-IsReachable : IsReachable older_last
older_last-IsReachable =
    step newer_first older_last
      (step two_spawned newer_first
        (step (spawn "ns/a" new) two_spawned (step new (spawn "ns/a" new) start (spawns "ns/a"))
          (spawns "ns/a"))
        (registers 1 "ns/a" newer_waits))
      (registers 0 "ns/a" older_waits)

reachable-IsExclusive_example : IsExclusive older_last
reachable-IsExclusive_example = reachable-IsExclusive older_last older_last-IsReachable
