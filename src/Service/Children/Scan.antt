-- ===== src/Service/Children/Scan.antt =====
-- daemon/src/service.rs: the search for the descendants of a process.
use system76_scheduler.Base.{
  ==_iff, Bool, Bool-cases, List, [], ap, arith, contains, contains-append, false, inl, inr, length,
  length-append, nat_eq, not, refl, some, string_eq, subst, suc, true, zero, ℕ, ◌&&◌, ◌++◌, ◌+◌,
  ◌<◌, ◌||◌, ◌↔◌, ◌∷◌, ◌≡◌, ◌≤◌,
}
use system76_scheduler.Base.Distinct.{Distinct, Distinct-length-le, Distinct-snoc}
use system76_scheduler.Daemon.Events.{tasks}
use system76_scheduler.Externals.{Externals}
use system76_scheduler.Process.Files.{Procfs, children}
use system76_scheduler.Service.Children.{assign_children, assign_tasks, push_children, scan_loop}
use system76_scheduler.Service.State.{Service}

-- `Descends x fs p q`: /proc shows a path of children from `p` to `q`.
pub data Descends (x : Externals) (fs : Procfs) (p : ℕ) : ℕ → Type 0 where
  self : Descends x fs p p
  child : {q r : ℕ} → Descends x fs p q → contains (children x fs q) r ≡ true → Descends x fs p r

-- The IDs below a bound
abbrev pub below : ℕ → List ℕ
below zero = []
below (suc n) = n ∷ below n

length-below : (n : ℕ) → length (below n) ≡ n
length-below zero = refl
length-below (suc n) = ap suc (length-below n)

contains-below : (n a : ℕ) → a < n → contains (below n) a ≡ true
contains-below zero a h = absurd (omega arith)
contains-below (suc n) a h = ground (arith, ==_iff n a, contains-below n a)

contains-push_children :
    (pids scan done : List ℕ) (a : ℕ)
    → contains (push_children pids scan done) a
      ≡ contains scan a || (contains pids a && not (contains done a))
unfolding push_children
contains-push_children [] scan done a = ground arith
contains-push_children (p ∷ pids) scan done a =
    elim (Bool-cases (contains scan p || contains done p)) [
      | inl e ↦ rw e (ground (arith, contains-push_children pids scan done a, ==_iff p a))
      | inr e ↦ rw e (ground (arith, contains-push_children pids (p ∷ scan) done a, ==_iff p a))
    ]

push_children-Distinct :
    (pids scan done : List ℕ) → Distinct scan → Distinct (push_children pids scan done)
unfolding push_children
push_children-Distinct [] scan done d = d
push_children-Distinct (p ∷ pids) scan done d =
    elim (Bool-cases (contains scan p || contains done p)) [
      | inl e ↦ rw e (push_children-Distinct pids scan done d)
      | inr e ↦ rw e (push_children-Distinct pids (p ∷ scan) done (ground arith, d))
    ]

module _ (x : Externals) (fs : Procfs) (pid : ℕ) where
  abbrev seen : List ℕ → List ℕ → ℕ → Bool
  seen scan done a = contains scan a || contains done a

  -- The IDs that the search can meet
  abbrev universe : List ℕ
  universe = pid ∷ below fs.pid_max

  record Inv (scan done : List ℕ) : Type 0 where
    scan_distinct : Distinct scan
    done_distinct : Distinct done
    apart : (a : ℕ) → contains scan a ≡ true → contains done a ≡ false
    bounded : (a : ℕ) → seen scan done a ≡ true → contains universe a ≡ true
    sound : (a : ℕ) → seen scan done a ≡ true → Descends x fs pid a
    closed :
        (a b : ℕ)
        → contains done a ≡ true
        → contains (children x fs a) b ≡ true
        → seen scan done b ≡ true
    started : seen scan done pid ≡ true

  init-Inv : Inv (pid ∷ []) []
  init-Inv = record {
    scan_distinct = (refl, tt);
    done_distinct = tt;
    apart = λ a h. refl;
    bounded = λ a h. ground (arith, ==_iff pid a);
    sound = λ a h. subst (Descends x fs pid) (ground (arith, ==_iff pid a)) self;
    closed = λ a b h k. ground arith;
    started = ground (arith, ==_iff pid pid);
  }

  module _ (below_max : (p a : ℕ) → contains (children x fs p) a ≡ true → a < fs.pid_max) where
    step-Inv :
        (p : ℕ) (scan done : List ℕ)
        → Inv (p ∷ scan) done
        → Inv (push_children (children x fs p) scan (done ++ p ∷ [])) (done ++ p ∷ [])
    step-Inv p scan done v = record {
      scan_distinct = push_children-Distinct _ scan _ v.scan_distinct.1;
      done_distinct = Distinct-snoc done p v.done_distinct (v.apart p (ground (arith, ==_iff p p)));
      apart = λ a h. ground (arith, pushed a, snoc a, v.apart a, v.scan_distinct.0, ==_iff p a);
      bounded = λ a h. ground (
        arith,
        pushed a,
        snoc a,
        v.bounded a,
        below_max p a,
        contains-below fs.pid_max a,
        ==_iff p a,
      );
      sound = λ a h. sound_step a h;
      closed =
          λ a b h k. ground (arith, pushed b, snoc b, snoc a, v.closed a b, ==_iff p b, ==_iff p a);
      started = ground (arith, pushed pid, snoc pid, v.started, ==_iff p pid);
    }
      where
        pushed :
            (a : ℕ)
            → contains (push_children (children x fs p) scan (done ++ p ∷ [])) a
              ≡ contains scan a
                || (contains (children x fs p) a && not (contains (done ++ p ∷ []) a))
        pushed a = contains-push_children (children x fs p) scan (done ++ p ∷ []) a

        snoc : (a : ℕ) → contains (done ++ p ∷ []) a ≡ contains done a || contains (p ∷ []) a
        snoc a = contains-append done (p ∷ []) a

        sound_step :
            (a : ℕ)
            → seen (push_children (children x fs p) scan (done ++ p ∷ [])) (done ++ p ∷ []) a ≡ true
            → Descends x fs pid a
        sound_step a h = elim (Bool-cases (seen (p ∷ scan) done a)) [
          | inl e ↦ v.sound a e
          | inr e ↦
              child (v.sound p (ground (arith, ==_iff p p)))
                (ground (arith, pushed a, snoc a, ==_iff p a))
        ]

    -- With fuel for each ID that is not yet scanned the loop ends.
    loop-Inv :
        (fuel : ℕ) (scan done : List ℕ)
        → Inv scan done
        → length universe + 1 ≤ fuel + length done
        → (all : List ℕ) × (scan_loop x fs fuel scan done done ≡ some (all, all)) × Inv [] all
    unfolding scan_loop
    loop-Inv zero scan done v enough = absurd (
        omega (
          arith,
          Distinct-length-le done universe v.done_distinct (λ a h. v.bounded a (ground arith)),
        ))
    loop-Inv (suc fuel) [] done v enough = (done, refl, v)
    loop-Inv (suc fuel) (p ∷ scan) done v enough =
        loop-Inv fuel (push_children (children x fs p) scan (done ++ p ∷ [])) (done ++ p ∷ [])
          (step-Inv p scan done v) (omega (arith, length-append done (p ∷ [])))

    -- What is scanned is exactly what descends from `pid`.
    scanned_iff :
        (all : List ℕ) → Inv [] all → (a : ℕ) → (contains all a ≡ true) ↔ Descends x fs pid a
    scanned_iff all v a = (v.sound a, complete)
      where
        complete : {b : ℕ} → Descends x fs pid b → contains all b ≡ true
        complete self = v.started
        complete (child {q} {r} d h) = v.closed q r (complete d) h

    -- The search for the children of a process ends within its fuel, and finds every process that
    -- descends from it, and no other, once. (Every process ID is below `pid_max`.)
    pub scan_loop-Descends :
        (all : List ℕ) × (scan_loop x fs (suc (suc fs.pid_max)) (pid ∷ []) [] [] ≡ some (all, all))
        × Distinct all
        × ((a : ℕ) → (contains all a ≡ true) ↔ Descends x fs pid a)
    scan_loop-Descends =
        let (all, ends, v) =
          loop-Inv (suc (suc fs.pid_max)) (pid ∷ []) [] init-Inv
            (omega (arith, length-below fs.pid_max)) in
        (all, ends, v.done_distinct, scanned_iff all v)

    -- Where its buffers are empty, `assign_children` handles the process and all that descend from it,
    -- each once and nothing else, as its tasks, and leaves the buffers empty. (Every process ID that
    -- is listed as a child is below `pid_max`.)
    pub assign_children-Descends :
        (s : Service)
        → s.assign_scan ≡ []
        → s.assign_tasks ≡ []
        → (all : List ℕ) × (assign_children x fs s pid ≡ record (assign_tasks x fs s all) {
          assign_scan = [];
          assign_scanned = all;
          assign_tasks = [];
        })
          × Distinct all
          × ((a : ℕ) → (contains all a ≡ true) ↔ Descends x fs pid a)
    unfolding assign_children
    assign_children-Descends s no_scan no_tasks =
        let (all, ends, once, exact) = scan_loop-Descends in
        (
          all,
          rw (from_empty all s.assign_scan s.assign_tasks ends no_scan no_tasks, assign_children),
          once,
          exact,
        )
      where
        from_empty :
            (all scan tasks : List ℕ)
            → scan_loop x fs (suc (suc fs.pid_max)) (pid ∷ []) [] [] ≡ some (all, all)
            → scan ≡ []
            → tasks ≡ []
            → scan_loop x fs (suc (suc fs.pid_max)) (pid ∷ scan) [] tasks ≡ some (all, all)
        from_empty all scan tasks ends h k = rw (h, k) ends
