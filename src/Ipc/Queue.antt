-- ===== src/Ipc/Queue.antt =====
-- The ring of an endpoint is a first-in first-out queue of at most 64 messages.
use sharkix.Common.{
  Bool, ℕ, zero, suc, ◌+◌, ◌-◌, ◌%◌, ◌≤◌, ◌<◌, ◌≡◌, ◌≢◌, refl, sym, ap, ◌∙◌, ◌==◌, Bool-cases, inl,
  inr, ◌⊎◌, Option, none, some, List, [], ◌∷◌, ◌++◌, length, get_or, set, length-set,
  get_or-set_self, get_or-set_ne, arith, ==_iff, ap₂,
}
use sharkix.Ipc.Endpoint.{
  Endpoint, Message, NotifyBinding, blank, kipc_queue_push, kipc_queue_pop, wake_receiver,
  wake_sender, inc,
}

-- `n` messages from index `i` on, round the end of the array.
pub window : ℕ → ℕ → List Message → List Message
window zero i q = []
window (suc n) i q = get_or q i blank ∷ window n ((i + 1) % 64) q

-- The queued messages, oldest first.
unfoldable pub contents : Endpoint → List Message
contents ep = window ep.queue_count ep.queue_head ep.queue

pub record IsRing (ep : Endpoint) : Type 0 where
  pub slots : length ep.queue ≡ 64
  pub head_in : ep.queue_head < 64
  pub count_in : ep.queue_count ≤ 64
  pub tail_at : ep.queue_tail ≡ (ep.queue_head + ep.queue_count) % 64

-- The ring has nothing to do with the waiters.
pub same-IsRing :
    {ep : Endpoint} {senders receivers sender_sem receiver_sem : ℕ} {shut : Bool}
    {bindings : List NotifyBinding}
    → IsRing ep
    → IsRing (record ep {
      sender_sem = sender_sem;
      receiver_sem = receiver_sem;
      is_shutting_down = shut;
      waiting_senders = senders;
      waiting_receivers = receivers;
      notify_bindings = bindings;
    })
same-IsRing v = record {
  slots = v.slots;
  head_in = v.head_in;
  count_in = v.count_in;
  tail_at = v.tail_at;
}

window-suc :
    (n i : ℕ) (q : List Message)
    → i < 64
    → window (suc n) i q ≡ window n i q ++ get_or q ((i + n) % 64) blank ∷ []
unfolding window
window-suc zero i q h = ap (λ t. get_or q t blank ∷ []) (omega arith)
window-suc (suc n) i q h =
    ap (λ l. get_or q i blank ∷ l)
      (window-suc n ((i + 1) % 64) q (omega arith)
        ∙ ap (λ t. window n ((i + 1) % 64) q ++ get_or q t blank ∷ []) (omega arith))

-- A write `d` places ahead of the start of a shorter window does not show in it.
window-set :
    (n d i : ℕ) (q : List Message) (m : Message)
    → i < 64
    → n ≤ d
    → d < 64
    → window n i (set q ((i + d) % 64) m) ≡ window n i q
unfolding window
window-set zero d i q m h k l = refl
window-set (suc n) zero i q m h k l = absurd (omega arith)
window-set (suc n) (suc d) i q m h k l =
    let far : (i + suc d) % 64 ≢ i = omega arith in
    let at : (i + suc d) % 64 ≡ ((i + 1) % 64 + d) % 64 = omega arith in
    rw (get_or-set_ne q m blank far) (
      ap (λ l. get_or q i blank ∷ l)
        (ap (λ t. window n ((i + 1) % 64) (set q t m)) at
          ∙ window-set n d ((i + 1) % 64) q m (omega arith) (omega arith) (omega arith)))

length-window : (n i : ℕ) (q : List Message) → length (window n i q) ≡ n
unfolding window
length-window zero i q = refl
length-window (suc n) i q = ap suc (length-window n ((i + 1) % 64) q)

pub length-contents : (ep : Endpoint) → length (contents ep) ≡ ep.queue_count
unfolding contents
length-contents ep = length-window ep.queue_count ep.queue_head ep.queue

-- What a push of `m` did: refused at 64 messages, or `m` is behind all others and the rest is kept.
abbrev pub Pushes : Endpoint → Message → Option Endpoint → Type 0
Pushes ep m r =
    ((length (contents ep) ≡ 64) × (r ≡ none))
    ⊎ ((ep' : Endpoint) × (r ≡ some ep')
        × (length (contents ep) < 64)
        × (contents ep' ≡ contents ep ++ m ∷ [])
        × IsRing ep'
        × (ep' ≡ record ep {
          queue = ep'.queue;
          queue_tail = ep'.queue_tail;
          queue_count = ep.queue_count + 1;
        }))

pushed-contents :
    (ep : Endpoint) (m : Message)
    → IsRing ep
    → ep.queue_count < 64
    → window (ep.queue_count + 1) ep.queue_head (set ep.queue ep.queue_tail m)
      ≡ window ep.queue_count ep.queue_head ep.queue ++ m ∷ []
pushed-contents ep m v room =
    let n = ep.queue_count in
    let i = ep.queue_head in
    let q = set ep.queue ep.queue_tail m in
    ap (λ t. window t i q) (omega arith)
    ∙ window-suc n i q v.head_in
    ∙ ap₂ (λ l x. l ++ x ∷ [])
        (ap (λ t. window n i (set ep.queue t m)) v.tail_at
          ∙ window-set n n i ep.queue m v.head_in (omega arith) room)
        (ap (λ t. get_or q t blank) (sym v.tail_at)
          ∙ get_or-set_self ep.queue ep.queue_tail m blank (omega (arith, v.slots, v.tail_at)))

-- On a valid ring kipc_queue_push appends to the queue and keeps the ring valid, or refuses exactly
-- when 64 messages are queued.
pub kipc_queue_push-Pushes :
    (ep : Endpoint) (m : Message) → IsRing ep → Pushes ep m (kipc_queue_push ep m)
unfolding kipc_queue_push contents
kipc_queue_push-Pushes ep m v = elim (Bool-cases (ep.queue_count == 64)) [
  | inl full ↦
      rw full (inl (omega (arith, length-contents ep, (==_iff ep.queue_count 64).0 full), refl))
  | inr room ↦
      let space : ep.queue_count < 64 = ground (arith, v.count_in, ==_iff ep.queue_count 64) in
      let more : inc ep.queue_count ≡ ep.queue_count + 1 = omega arith in
      rw (room, more)
        (inr (
          record ep {
            queue = set ep.queue ep.queue_tail m;
            queue_tail = inc ep.queue_tail % 64;
            queue_count = ep.queue_count + 1;
          },
          refl,
          omega (arith, length-contents ep),
          pushed-contents ep m v space,
          record {
            slots = length-set ep.queue ep.queue_tail m ∙ v.slots;
            head_in = v.head_in;
            count_in = omega arith;
            tail_at = omega (arith, v.tail_at);
          },
          refl,
        ))
]

-- What a pop did: nothing was queued, or the oldest message came out and the rest is kept.
abbrev pub Pops : Endpoint → Option (Message × Endpoint) → Type 0
Pops ep r =
    ((contents ep ≡ []) × (r ≡ none))
    ⊎ ((m : Message) × (ep' : Endpoint) × (r ≡ some (m, ep'))
        × (contents ep ≡ m ∷ contents ep')
        × IsRing ep'
        × (ep' ≡ record ep { queue_head = ep'.queue_head; queue_count = ep.queue_count - 1 }))

-- On a valid ring kipc_queue_pop takes the oldest message and keeps the ring valid, or fails exactly
-- on the empty queue.
pub kipc_queue_pop-Pops : (ep : Endpoint) → IsRing ep → Pops ep (kipc_queue_pop ep)
unfolding kipc_queue_pop contents window
kipc_queue_pop-Pops ep v = elim (Bool-cases (ep.queue_count == 0)) [
  | inl bare ↦
      let none_left = (==_iff ep.queue_count 0).0 bare in rw (bare, none_left) (inl (refl, refl))
  | inr more ↦
      let one : ep.queue_count ≡ suc (ep.queue_count - 1) =
        ground (arith, ==_iff ep.queue_count 0) in
      let next : inc ep.queue_head % 64 ≡ (ep.queue_head + 1) % 64 = omega (arith, v.head_in) in
      rw (more) (
        inr (
          get_or ep.queue ep.queue_head blank,
          record ep { queue_head = inc ep.queue_head % 64; queue_count = ep.queue_count - 1 },
          refl,
          ap (λ n. window n ep.queue_head ep.queue) one
              ∙ ap
                  (λ i.
                    get_or ep.queue ep.queue_head blank ∷ window (ep.queue_count - 1) i ep.queue)
                  (sym next),
          record {
            slots = v.slots;
            head_in = omega arith;
            count_in = omega (arith, v.count_in);
            tail_at = omega (arith, v.tail_at, v.head_in, one);
          },
          refl,
        ))
]

-- A wakeup does not touch the queue.
pub contents-wake_receiver : (ep : Endpoint) → contents (wake_receiver ep) ≡ contents ep
unfolding wake_receiver contents
contents-wake_receiver ep = elim (Bool-cases (ep.waiting_receivers == 0)) [
  | inl nobody ↦ simp nobody
  | inr somebody ↦ simp somebody
]

pub contents-wake_sender : (ep : Endpoint) → contents (wake_sender ep) ≡ contents ep
unfolding wake_sender contents
contents-wake_sender ep = elim (Bool-cases (ep.waiting_senders == 0)) [
  | inl nobody ↦ simp nobody
  | inr somebody ↦ simp somebody
]

pub contents-empty : (ep : Endpoint) → ep.queue_count ≡ 0 → contents ep ≡ []
unfolding contents window
contents-empty ep bare = rw bare refl
