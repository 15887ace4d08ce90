-- ===== src/Examples/Queues.antt =====
-- A bounded queue as a list, with the interface of `tokio::sync::mpsc`.
use gosub_sonar.Prelude.{
  ℕ, ◌≤◌, ◌≡◌, refl, Bool, true, false, List, [], ◌∷◌, ◌++◌, Option, none, some, Text,
  if◌then◌else◌, ltb, arith, length,
}
use gosub_sonar.Web.Channels.{ChannelApi, TrySend, sent, full, closed}

pub record Queue : Type 0 where
  pub items : List Text
  pub capacity : ℕ
  pub alive : Bool

unfoldable pub put : Queue → Text → TrySend Queue
put q x =
    if q.alive
    then (if ltb (length q.items) q.capacity
        then sent (record q { items = q.items ++ x ∷ [] })
        else full)
    else closed

abbrev pub next : List Text → Queue → Option (Text × Queue)
next [] q = none
next (x ∷ xs) q = some (x, record q { items = xs })

unfoldable pub pull : Queue → Option (Text × Queue)
pull q = next q.items q

pub queued-put : (c d : Queue) (x : Text) → put c x ≡ sent d → d.items ≡ c.items ++ x ∷ []
unfolding put
queued-put c d x e = ground arith

pub alive-put : (c d : Queue) (x : Text) → put c x ≡ sent d → d.alive ≡ c.alive
unfolding put
alive-put c d x e = ground arith

pub full-put : (c : Queue) (x : Text) → put c x ≡ full → c.capacity ≤ length c.items
unfolding put
full-put c x e = ground arith

pub closed-put : (c : Queue) (x : Text) → put c x ≡ closed → c.alive ≡ false
unfolding put
closed-put c x e = ground arith

next-some :
    (xs : List Text) (c d : Queue) (x : Text)
    → next xs c ≡ some (x, d)
    → (xs ≡ x ∷ d.items) × (d.alive ≡ c.alive)
next-some [] c d x e = absurd (cc e)
next-some (y ∷ ys) c d x e = ground arith

next-none : (xs : List Text) (c : Queue) → next xs c ≡ none → xs ≡ []
next-none [] c e = refl
next-none (y ∷ ys) c e = absurd (cc e)

pub pull-some : (c d : Queue) (x : Text) → pull c ≡ some (x, d) → c.items ≡ x ∷ d.items
unfolding pull
pull-some c d x e = (next-some c.items c d x e).0

pub pull-alive : (c d : Queue) (x : Text) → pull c ≡ some (x, d) → d.alive ≡ c.alive
unfolding pull
pull-alive c d x e = (next-some c.items c d x e).1

pub pull-none : (c : Queue) → pull c ≡ none → c.items ≡ []
unfolding pull
pull-none c e = next-none c.items c e

abbrev pub queue_api : ChannelApi
queue_api = record {
  Channel = Queue;
  channel = λ n. record { items = []; capacity = n; alive = true };
  try_send = put;
  recv = pull;
  drop_receiver = λ q. record q { alive = false };
  queued = λ q. q.items;
  capacity = λ q. q.capacity;
  has_receiver = λ q. q.alive;
  queued-channel = λ n. refl;
  has_receiver-channel = λ n. refl;
  queued-sent = queued-put;
  has_receiver-sent = alive-put;
  full_at_capacity = full-put;
  closed_without_receiver = closed-put;
  recv-some = pull-some;
  recv-none = pull-none;
  has_receiver-recv = pull-alive;
}
