-- ===== src/Pipewire/Registry/Heard.antt =====
-- pipewire/src/lib.rs: which nodes are heard.
use system76_scheduler.Base.{
  ==_iff, Bool-cases, List, [], adjoin, ap, arith, contains, contains-adjoin, contains-append,
  contains-discard, discard, false, if◌then◌else◌, inl, inr, nat_eq, none, not, refl, some,
  string_eq, sym, true, ℕ, ◌&&◌, ◌++◌, ◌||◌, ◌∙◌, ◌∷◌, ◌≡◌,
}
use system76_scheduler.Pipewire.Nodes.{Managed, NodeEvent, new_managed, on_node, on_nodes}
use system76_scheduler.Pipewire.Registry.{
  Notice, Registry, forget, hear_info, hear_removed, listen_to, new_registry, on_notice, on_notices,
}

-- The nodes that are there, and those that went since the timer was last due
pub record Present : Type 0 where
  pub live : List ℕ
  pub dead : List ℕ

abbrev pub nobody : Present
nobody = record { live = []; dead = [] }

abbrev pub observe : Present → Notice → Present
observe p (Notice.global true (some id)) = record p { live = adjoin id p.live }
observe p (Notice.global _ _) = p
observe p (Notice.info id props) = p
observe p (Notice.gone id) =
    if contains p.live id then record { live = discard id p.live; dead = p.dead ++ id ∷ [] } else p
observe p Notice.timer = record p { dead = [] }

-- No notice is about a node that went since the timer was last due: neither of its ID again. The
-- ID is that of the proxy, which the map holds until the timer destroys it.
abbrev pub Fits : Present → Notice → Type 0
Fits p (Notice.global true (some id)) = contains p.dead id ≡ false
Fits p (Notice.global _ _) = Unit {0}
Fits p (Notice.info id props) = contains p.dead id ≡ false
Fits p (Notice.gone id) = contains p.dead id ≡ false
Fits p Notice.timer = Unit {0}

abbrev pub Orderly : Present → List Notice → Type 0
Orderly p [] = Unit
Orderly p (notice ∷ rest) = Fits p notice × Orderly (observe p notice) rest

-- What each node says while it is there
abbrev pub said : Present → Notice → List NodeEvent
said p (Notice.info id props) = if contains p.live id then NodeEvent.info id props ∷ [] else []
said p (Notice.gone id) = if contains p.live id then NodeEvent.removed id ∷ [] else []
said p _ = []

abbrev pub all_said : Present → List Notice → List NodeEvent
all_said p [] = []
all_said p (notice ∷ rest) = said p notice ++ all_said (observe p notice) rest

-- The map holds the nodes that are there and those to be forgotten.
record Agrees (p : Present) (m : Registry) : Type 0 where
  ids : m.remove_ids ≡ p.dead
  kept : (a : ℕ) → contains m.nodes a ≡ contains p.live a || contains p.dead a
  apart : (a : ℕ) → contains p.live a ≡ true → contains p.dead a ≡ false

contains-forget :
    (nodes ids : List ℕ) (a : ℕ)
    → contains (forget nodes ids) a ≡ contains nodes a && not (contains ids a)
unfolding forget
contains-forget nodes [] a = ground arith
contains-forget nodes (id ∷ rest) a =
    ground
      (arith, contains-forget (discard id nodes) rest a, contains-discard id a nodes, ==_iff id a)

abbrev pub observe_all : Present → List Notice → Present
observe_all p [] = p
observe_all p (notice ∷ rest) = observe_all (observe p notice) rest

-- One notice
on_notice-Agrees :
    (p : Present) (m : Registry) (notice : Notice)
    → Fits p notice
    → Agrees p m
    → Agrees (observe p notice) (on_notice m notice)
unfolding on_notice listen_to hear_info hear_removed
on_notice-Agrees p m (Notice.global false bound) fits h = h
on_notice-Agrees p m (Notice.global true none) fits h = h
on_notice-Agrees p m (Notice.global true (some id)) fits h = record {
  ids = h.ids;
  kept = λ a. ground (arith, contains-adjoin id a m.nodes, contains-adjoin id a p.live, h.kept a);
  apart = λ a q. ground (arith, contains-adjoin id a p.live, h.apart a, ==_iff id a);
}
on_notice-Agrees p m (Notice.info id props) fits h = elim (Bool-cases (contains m.nodes id)) [
  | inl e ↦ rw e (record { ids = h.ids; kept = h.kept; apart = h.apart })
  | inr e ↦ rw e h
]
on_notice-Agrees p m (Notice.gone id) fits h = elim (Bool-cases (contains p.live id)) [
  | inl e ↦
      let known : contains m.nodes id ≡ true = ground (arith, h.kept id) in
      rw (e, known)
        (record {
          ids = ap (λ (ids : List ℕ). ids ++ id ∷ []) h.ids;
          kept = λ a. ground (
            arith,
            h.kept a,
            contains-discard id a p.live,
            contains-append p.dead (id ∷ []) a,
            ==_iff id a,
          );
          apart = λ a q. ground (
            arith,
            h.apart a,
            contains-discard id a p.live,
            contains-append p.dead (id ∷ []) a,
            ==_iff id a,
          );
        })
  | inr e ↦
      let unknown : contains m.nodes id ≡ false = ground (arith, h.kept id) in rw (e, unknown) h
]
on_notice-Agrees p m Notice.timer fits h = record {
  ids = refl;
  kept = λ a. ground (arith, contains-forget m.nodes m.remove_ids a, h.kept a, h.apart a, h.ids);
  apart = λ a q. refl;
}

on_notice-said :
    (p : Present) (m : Registry) (notice : Notice)
    → Fits p notice
    → Agrees p m
    → (on_notice m notice).managed ≡ on_nodes m.managed (said p notice)
unfolding on_notice listen_to hear_info hear_removed on_nodes
on_notice-said p m (Notice.global false bound) fits h = refl
on_notice-said p m (Notice.global true none) fits h = refl
on_notice-said p m (Notice.global true (some id)) fits h = refl
on_notice-said p m (Notice.info id props) fits h = ground (arith, h.kept id)
on_notice-said p m (Notice.gone id) fits h = ground (arith, h.kept id)
on_notice-said p m Notice.timer fits h = refl

on_nodes-append :
    (m : Managed) (front back : List NodeEvent)
    → on_nodes m (front ++ back) ≡ on_nodes (on_nodes m front) back
unfolding on_nodes
on_nodes-append m [] back = refl
on_nodes-append m (event ∷ front) back = on_nodes-append (on_node m event) front back

notices-heard :
    (p : Present) (m : Registry) (notices : List Notice)
    → Orderly p notices
    → Agrees p m
    → Agrees (observe_all p notices) (on_notices m notices)
      × ((on_notices m notices).managed ≡ on_nodes m.managed (all_said p notices))
unfolding on_notices on_nodes
notices-heard p m [] orderly h = (h, refl)
notices-heard p m (notice ∷ rest) (fits, orderly) h =
    let (agrees, told) =
      notices-heard (observe p notice) (on_notice m notice) rest orderly
        (on_notice-Agrees p m notice fits h) in
    (
      agrees,
      told
          ∙ ap (λ (n : Managed). on_nodes n (all_said (observe p notice) rest))
              (on_notice-said p m notice fits h)
          ∙ sym (on_nodes-append m.managed (said p notice) (all_said (observe p notice) rest)),
    )

-- Where no notice is about the ID of a node that went since the timer was last due, the closure of
-- `processes_from_socket` is told exactly what the nodes that are there say, each while it is there;
-- and the map `nodes` holds exactly those that are there and those that the timer has still to forget.
pub on_notices-heard :
    (notices : List Notice)
    → Orderly nobody notices
    → ((on_notices new_registry notices).managed ≡ on_nodes new_managed (all_said nobody notices))
      × ((a : ℕ)
          → contains (on_notices new_registry notices).nodes a
            ≡ contains (observe_all nobody notices).live a
              || contains (on_notices new_registry notices).remove_ids a)
on_notices-heard notices orderly =
    let (h, told) =
      notices-heard nobody new_registry notices orderly
        (record { ids = refl; kept = λ a. refl; apart = λ a q. refl }) in
    (told, λ a. rw h.ids (h.kept a))
