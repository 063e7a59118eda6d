-- ===== src/Client/Queue/Exclusion.antt =====
-- No two tasks work on one resource, and none leaves its entry behind.
use tugboat.Base.{
  ℕ, ◌≡◌, refl, sym, ◌∙◌, ◌⊎◌, inl, inr, ◌≤◌, String, false, some, arith, eq_iff, Option-cases,
}
use tugboat.Base.Dict.{get, get-insert, get-remove}
use tugboat.Client.Queue.{
  unborn, waiting, running, ended, Queue, is_cancelled, new, spawn, register, end_task, unregister,
  shut_down, Step, spawns, registers, ends, unregisters, shuts_down, IsReachable, start, step,
}

-- A task that runs and is not cancelled has its resource's entry; an entry is that of a task that
-- has not returned, unless the parent token is cancelled; numbers are not given twice, and no
-- task is cancelled before it has an entry.
pub record IsConsistent (q : Queue) : Type 0 where
  pub entered :
      (id : ℕ) (key : String)
      → q.phase id ≡ running key
      → is_cancelled q id ≡ false
      → get key q.in_flight ≡ some id
  pub present :
      (id : ℕ) (key : String)
      → q.parent_cancelled ≡ false
      → get key q.in_flight ≡ some id
      → (q.phase id ≡ running key) ⊎ (q.phase id ≡ ended key)
  pub unused : (id : ℕ) → q.counter ≤ id → q.phase id ≡ unborn
  pub waits :
      (id : ℕ) (key : String)
      → q.parent_cancelled ≡ false
      → q.phase id ≡ waiting key
      → q.cancelled id ≡ false
  pub untouched :
      (id : ℕ) → q.parent_cancelled ≡ false → q.phase id ≡ unborn → q.cancelled id ≡ false

new-IsConsistent : IsConsistent new
unfolding new
new-IsConsistent = record {
  entered = λ id key r c. absurd (cc);
  present = λ id key p e. absurd (cc);
  unused = λ id h. refl;
  waits = λ id k p r. refl;
  untouched = λ id p u. refl;
}

spawn-IsConsistent : (key : String) (q : Queue) → IsConsistent q → IsConsistent (spawn key q)
unfolding spawn
spawn-IsConsistent key q h = record {
  entered = λ id k r c. ground (arith, h.entered id k);
  present = λ id k p e. ground (arith, h.present id k p e, h.unused q.counter);
  unused = λ id b. ground (arith, h.unused id);
  waits = λ id k p r. ground (arith, h.waits id k p, h.unused id, h.untouched id p);
  untouched = λ id p u. ground (arith, h.untouched id p);
}

end_task-IsConsistent :
    (id : ℕ) (key : String) (q : Queue)
    → q.phase id ≡ running key
    → IsConsistent q
    → IsConsistent (end_task id key q)
unfolding end_task
end_task-IsConsistent id key q r h = record {
  entered = λ j k s c. ground (arith, h.entered j k);
  present = λ j k p e. ground (arith, h.present j k p e);
  unused = λ j b. ground (arith, h.unused j b, h.unused id);
  waits = λ j k p s. ground (arith, h.waits j k p);
  untouched = λ j p u. ground (arith, h.untouched j p);
}

shut_down-IsConsistent : (q : Queue) → IsConsistent q → IsConsistent (shut_down q)
unfolding shut_down
shut_down-IsConsistent q h = record {
  entered = λ id k r c. absurd (cc);
  present = λ id k p e. absurd (cc);
  unused = h.unused;
  waits = λ id k p r. absurd (cc);
  untouched = λ id p u. absurd (cc);
}

unregister-IsConsistent :
    (id : ℕ) (key : String) (q : Queue)
    → q.phase id ≡ ended key
    → IsConsistent q
    → IsConsistent (unregister id key q)
unfolding unregister
unregister-IsConsistent id key q r h = record {
  entered = λ j k s c. ground (arith, h.entered j k, get-remove key k q.in_flight, eq_iff key k);
  present = λ j k p e. ground (arith, h.present j k p, get-remove key k q.in_flight, eq_iff key k);
  unused = λ j b. ground (arith, h.unused j b, h.unused id);
  waits = λ j k p s. ground (arith, h.waits j k p);
  untouched = λ j p u. ground (arith, h.untouched j p);
}

register-IsConsistent :
    (id : ℕ) (key : String) (q : Queue)
    → q.phase id ≡ waiting key
    → IsConsistent q
    → IsConsistent (register id key q)
unfolding register
register-IsConsistent id key q r h = elim (Option-cases (get key q.in_flight)) [
  | inl e ↦
      rw (e, register)
        (record {
          entered = λ j k s c.
              ground (arith, h.entered j k, get-insert key k id q.in_flight, eq_iff key k);
          present = λ j k p g. ground (
            arith,
            h.present j k p,
            h.waits id key p r,
            get-insert key k id q.in_flight,
            eq_iff key k,
          );
          unused = λ j b. ground (arith, h.unused j b, h.unused id);
          waits = λ j k p s. ground (arith, h.waits j k p);
          untouched = λ j p u. ground (arith, h.untouched j p);
        })
  | inr (previous, e) ↦
      rw (e, register)
        (record {
          entered = λ j k s c.
              ground (arith, h.entered j k, get-insert key k id q.in_flight, eq_iff key k);
          present = λ j k p g. ground (
            arith,
            h.present j k p,
            h.waits id key p r,
            h.present previous key p e,
            get-insert key k id q.in_flight,
            eq_iff key k,
          );
          unused = λ j b. ground (arith, h.unused j b, h.unused id);
          waits = λ j k p s. ground (arith, h.waits j k p, h.present previous key p e);
          untouched = λ j p u. ground (arith, h.untouched j p, h.present previous key p e);
        })
]

Step-IsConsistent : (q q' : Queue) → IsConsistent q → Step q q' → IsConsistent q'
Step-IsConsistent q _ h (spawns key) = spawn-IsConsistent key q h
Step-IsConsistent q _ h (registers id key r) = register-IsConsistent id key q r h
Step-IsConsistent q _ h (ends id key r) = end_task-IsConsistent id key q r h
Step-IsConsistent q _ h (unregisters id key r) = unregister-IsConsistent id key q r h
Step-IsConsistent q _ h shuts_down = shut_down-IsConsistent q h

reachable-IsConsistent : (q : Queue) → IsReachable q → IsConsistent q
reachable-IsConsistent _ start = new-IsConsistent
reachable-IsConsistent _ (step q q' before s) =
    Step-IsConsistent q q' (reachable-IsConsistent q before) s

-- At most one task works on a resource, and an entry is that of a task that is not done.
pub record IsExclusive (q : Queue) : Type 0 where
  pub one_at_a_time :
      (i j : ℕ) (key : String)
      → q.phase i ≡ running key
      → is_cancelled q i ≡ false
      → q.phase j ≡ running key
      → is_cancelled q j ≡ false
      → i ≡ j
  pub none_left_behind :
      (id : ℕ) (key : String)
      → q.parent_cancelled ≡ false
      → get key q.in_flight ≡ some id
      → (q.phase id ≡ running key) ⊎ (q.phase id ≡ ended key)

-- However the tasks of a queue are interleaved: two tasks that run for the same resource and are not
-- cancelled are the same task; and until the parent token is cancelled, each entry of the map is
-- that of a task of its resource that runs or is about to take the entry out.
pub reachable-IsExclusive : (q : Queue) → IsReachable q → IsExclusive q
reachable-IsExclusive q reached =
    let h = reachable-IsConsistent q reached in
    record {
      one_at_a_time = λ i j key a b c d.
          let first = h.entered i key a b in
          let second = h.entered j key c d in let same : some i ≡ some j = sym first ∙ second in cc;
      none_left_behind = h.present;
    }
