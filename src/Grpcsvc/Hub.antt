-- ===== src/Grpcsvc/Hub.antt =====
-- internal/grpcsvc/hub.go: the fan-out of events to the active watch streams. A channel is the list of
-- the events that wait in it, oldest first; it holds at most `watch_buffer` of them.
pub mod Delivery
use openshell_driver_appleco.Prelude.{
  ℕ, suc, Bool, List, [], ◌∷◌, ◌++◌, Option, none, some, map, ltb, eqb, length, if◌then◌else◌,
}

abbrev pub watch_buffer : ℕ
watch_buffer = 128

pub record Subscriber (E : Type 0) : Type 0 where
  pub id : ℕ
  pub channel : List E

pub record Hub (E : Type 0) : Type 0 where
  pub subs : List (Subscriber E)
  pub next : ℕ

module _ {E : Type 0} where
  abbrev pub new_hub : Hub E
  new_hub = record { subs = []; next = 0 }

  -- The new stream's id and the hub; its channel is empty.
  unfoldable pub subscribe : Hub E → ℕ × Hub E
  subscribe h =
      (h.next, record { subs = record { id = h.next; channel = [] } ∷ h.subs; next = suc h.next })

  drop_sub : ℕ → List (Subscriber E) → List (Subscriber E)
  drop_sub id [] = []
  drop_sub id (s ∷ subs) = let rest = drop_sub id subs in if eqb s.id id then rest else s ∷ rest

  pub unsubscribe : ℕ → Hub E → Hub E
  unfolding drop_sub
  unsubscribe id h = record h { subs = drop_sub id h.subs }

  -- `select { case ch <- ev: default: }`: a full channel loses the event.
  pub offer : E → Subscriber E → Subscriber E
  offer ev s =
      if ltb (length s.channel) watch_buffer then record s { channel = s.channel ++ ev ∷ [] } else s

  unfoldable pub publish : E → Hub E → Hub E
  publish ev h = record h { subs = map (offer ev) h.subs }

  -- `ev, ok := <-ch` in a watch stream's loop: the oldest event, or none yet.
  unfoldable pub channel_of : ℕ → List (Subscriber E) → Option (List E)
  channel_of id [] = none
  channel_of id (s ∷ subs) = if eqb s.id id then some s.channel else channel_of id subs
