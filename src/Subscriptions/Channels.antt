-- ===== src/Subscriptions/Channels.antt =====
-- The manager listens to the channels that it has senders for, and a message reaches the receivers
-- of its channel only.
use magna.Base.{
  done, failed, ℕ, suc, ◌<◌, ◌≡◌, ◌≢◌, ◌⊎◌, ◌↔◌, refl, sym, ap, subst, ◌∙◌, List, [], ◌∷◌, none,
  some, some_inj, Memᴰ, mem-cons_cases, Map, lookup, insert, remove, lookup-insert, lookup-remove,
  lookup-insert_self, Bytes, bytes_eq, ◌==◌, eq_of_beq, beq_refl, beq_of_ne, Bool-cases,
  Option-cases, inl, inr, arith,
}
use magna.Subscriptions.{
  Result, ok, err, NotifyPayload, Manager, empty_manager, new_manager, Reply, subscribe, forget,
  unsubscribe, dispatch_notification,
}

pub record IsTracked (m : Manager) : Type 0 where
  pub listened : (c : Bytes) → Memᴰ c m.listening ↔ ((s : ℕ) × (lookup m.channels c ≡ some s))
  pub fresh : (c : Bytes) (s : ℕ) → lookup m.channels c ≡ some s → s < m.created
  pub separate :
      (c d : Bytes) (s : ℕ) → lookup m.channels c ≡ some s → lookup m.channels d ≡ some s → c ≡ d

-- One call of the manager, with the database's answer.
pub data Step : Manager → Manager → Type 0 where
  subscribes :
      (m : Manager) (channel : Bytes) (reply : Reply) → Step m (subscribe m channel reply).1
  unsubscribes :
      (m : Manager) (channel : Bytes) (reply : Reply) → Step m (unsubscribe m channel reply).1

pub data Reaches (m : Manager) : Manager → Type 0 where
  here : Reaches m m
  then_step : {a b : Manager} → Reaches m a → Step a b → Reaches m b

-- What an insertion is to a lookup, case by case.
lookup-insert_cases :
    (k c : Bytes) (v s : ℕ) (m : Map Bytes ℕ)
    → lookup (insert k v m) c ≡ some s
    → ((k ≡ c) × (v ≡ s)) ⊎ ((k ≢ c) × (lookup m c ≡ some s))
lookup-insert_cases k c v s m e = elim (Bool-cases (k == c)) [
  | inl same ↦ inl (eq_of_beq k c same, cc (lookup-insert k c v m, same, e))
  | inr other ↦ inr (λ p. cc (p, other, beq_refl c), cc (lookup-insert k c v m, other, e))
]

lookup-remove_cases :
    (k c : Bytes) (s : ℕ) (m : Map Bytes ℕ)
    → lookup (remove k m) c ≡ some s
    → (k ≢ c) × (lookup m c ≡ some s)
lookup-remove_cases k c s m e = elim (Bool-cases (k == c)) [
  | inl same ↦ cc (lookup-remove k c m, same, e)
  | inr other ↦ (λ p. cc (p, other, beq_refl c), cc (lookup-remove k c m, other, e))
]

mem-forget : (k c : Bytes) (l : List Bytes) → Memᴰ c (forget k l) ↔ (Memᴰ c l × (k ≢ c))
mem-forget k c [] = (λ m. elim m [ ], λ h. elim h.0 [ ])
mem-forget k c (d ∷ ds) =
    let ih = mem-forget k c ds in
    elim (Bool-cases (d == k)) [
      | inl same ↦ rw same (
        λ m. ((Memᴰ.tail (ih.0 m).0), (ih.0 m).1),
        λ h. elim (mem-cons_cases c d ds h.0) [
          | inl e ↦ absurd (h.1 (sym (e ∙ eq_of_beq d k same)))
          | inr n ↦ ih.1 (n, h.1)
        ],
      )
      | inr other ↦ rw other (
        λ m. elim (mem-cons_cases c d (forget k ds) m) [
          | inl e ↦ (Memᴰ.head e, λ q. cc (q, e, other, beq_refl d))
          | inr n ↦ ((Memᴰ.tail (ih.0 n).0), (ih.0 n).1)
        ],
        λ h. elim (mem-cons_cases c d ds h.0) [
          | inl e ↦ Memᴰ.head e
          | inr n ↦ Memᴰ.tail (ih.1 (n, h.1))
        ],
      )
    ]

insert_present :
    (k c : Bytes) (v : ℕ) (m : Map Bytes ℕ)
    → ((c ≡ k) ⊎ ((s : ℕ) × (lookup m c ≡ some s)))
    → (s : ℕ) × (lookup (insert k v m) c ≡ some s)
insert_present k c v m h = rw lookup-insert (elim (Bool-cases (k == c)) [
  | inl same ↦ rw same (v, refl)
  | inr other ↦ rw other (elim h [ inl e ↦ cc (e, other, beq_refl k) | inr found ↦ found ])
])

remove_present :
    (k c : Bytes) (s : ℕ) (m : Map Bytes ℕ)
    → k ≢ c
    → lookup m c ≡ some s
    → lookup (remove k m) c ≡ some s
remove_present k c s m other e = rw (lookup-remove, beq_of_ne k c other) e

empty-IsTracked : IsTracked empty_manager
unfolding lookup
empty-IsTracked = record {
  listened = λ c. (λ m. elim m [ ], λ h. cc (h.1));
  fresh = λ c s e. cc;
  separate = λ c d s e f. cc;
}

subscribe-IsTracked :
    (m : Manager) (channel : Bytes) (reply : Reply)
    → IsTracked m
    → IsTracked (subscribe m channel reply).1
unfolding subscribe
subscribe-IsTracked m channel reply h = elim (Option-cases (lookup m.channels channel)) [
  | inr (s, old) ↦ rw (old, subscribe) h
  | inl new ↦ rw (new, subscribe) (by_reply new reply)
]
  where
    by_reply :
        lookup m.channels channel ≡ none
        → (r : Reply)
        → IsTracked
            (elim r as (λ _. Result ℕ × Manager) [
              | failed message ↦ (err (magna.Subscriptions.SubscriptionError.database message), m)
              | done u ↦ (
                ok m.created,
                record {
                  listening = channel ∷ m.listening;
                  channels = insert channel m.created m.channels;
                  created = suc m.created;
                },
              )
            ]).1
    by_reply new (failed message) = h
    by_reply new (done u) = record {
      listened = λ c. (
        λ mem.
            insert_present channel c m.created m.channels
              (elim (mem-cons_cases c channel m.listening mem) [
                | inl e ↦ inl e
                | inr old ↦ inr ((h.listened c).0 old)
              ]),
        λ (s, e). elim (lookup-insert_cases channel c m.created s m.channels e) [
          | inl (p, q) ↦ Memᴰ.head (sym p)
          | inr (p, q) ↦ Memᴰ.tail ((h.listened c).1 (s, q))
        ],
      );
      fresh = λ c s e. elim (lookup-insert_cases channel c m.created s m.channels e) [
        | inl (p, q) ↦ omega (arith, q)
        | inr (p, q) ↦ omega (arith, h.fresh c s q)
      ];
      separate = λ c d s e f. elim (lookup-insert_cases channel c m.created s m.channels e) [
        | inl (p, q) ↦ elim (lookup-insert_cases channel d m.created s m.channels f) [
          | inl (p', q') ↦ sym p ∙ p'
          | inr (p', q') ↦ absurd (omega (arith, q, h.fresh d s q'))
        ]
        | inr (p, q) ↦ elim (lookup-insert_cases channel d m.created s m.channels f) [
          | inl (p', q') ↦ absurd (omega (arith, q', h.fresh c s q))
          | inr (p', q') ↦ h.separate c d s q q'
        ]
      ];
    }

unsubscribe-IsTracked :
    (m : Manager) (channel : Bytes) (reply : Reply)
    → IsTracked m
    → IsTracked (unsubscribe m channel reply).1
unfolding unsubscribe
unsubscribe-IsTracked m channel (failed message) h = h
unsubscribe-IsTracked m channel (done u) h = record {
  listened = λ c. (
    λ mem.
        let (old, other) = (mem-forget channel c m.listening).0 mem in
        let (s, e) = (h.listened c).0 old in (s, remove_present channel c s m.channels other e),
    λ (s, e).
        let (other, old) = lookup-remove_cases channel c s m.channels e in
        (mem-forget channel c m.listening).1 ((h.listened c).1 (s, old), other),
  );
  fresh = λ c s e. h.fresh c s (lookup-remove_cases channel c s m.channels e).1;
  separate = λ c d s e f.
      h.separate c d s (lookup-remove_cases channel c s m.channels e).1
        (lookup-remove_cases channel d s m.channels f).1;
}

Reaches-IsTracked : (start m : Manager) → IsTracked start → Reaches start m → IsTracked m
Reaches-IsTracked start m h here = h
Reaches-IsTracked start m h (then_step r (subscribes n channel reply)) =
    subscribe-IsTracked n channel reply (Reaches-IsTracked start n h r)
Reaches-IsTracked start m h (then_step r (unsubscribes n channel reply)) =
    unsubscribe-IsTracked n channel reply (Reaches-IsTracked start n h r)

ok_inj : {A : Type 0} {s t : A} → ok s ≡ ok t → s ≡ t
ok_inj {A} {s} {t} p = cc (p)

new-IsTracked : (reply : Reply) (start : Manager) → new_manager reply ≡ ok start → IsTracked start
unfolding new_manager
new-IsTracked (done u) start made = subst IsTracked (ok_inj made) empty-IsTracked
new-IsTracked (failed message) start refused = cc (refused)

-- After any calls of a manager that was made, whatever the database answers, the connection
-- listens to exactly the channels that have a sender, senders are older than the next one, and no
-- two channels share one.
pub reachable-IsTracked :
    (reply : Reply) (start m : Manager)
    → new_manager reply ≡ ok start
    → Reaches start m
    → IsTracked m
reachable-IsTracked reply start m made r =
    Reaches-IsTracked start m (new-IsTracked reply start made) r

lookup-subscribe :
    (m : Manager) (channel : Bytes) (reply : Reply) (sender : ℕ)
    → (subscribe m channel reply).0 ≡ ok sender
    → lookup (subscribe m channel reply).1.channels channel ≡ some sender
unfolding subscribe
lookup-subscribe m channel reply sender e = elim (Option-cases (lookup m.channels channel)) [
  | inr (s, old) ↦
      let same : ok s ≡ ok sender = rw (old, subscribe) at e in
      rw (old, subscribe) (old ∙ ap some (ok_inj same))
  | inl new ↦ by_reply new reply e
]
  where
    by_reply :
        lookup m.channels channel ≡ none
        → (r : Reply) → (subscribe m channel r).0 ≡ ok sender
        → lookup (subscribe m channel r).1.channels channel ≡ some sender
    by_reply new (failed message) f = cc (rw (new, subscribe) at f)
    by_reply new (done u) f =
        let same : ok m.created ≡ ok sender = rw (new, subscribe) at f in
        rw (new, subscribe)
          (lookup-insert_self channel m.created m.channels ∙ ap some (ok_inj same))

dispatch_notification_iff :
    (m : Manager) (channel : Bytes) (sender : ℕ)
    → IsTracked m
    → lookup m.channels channel ≡ some sender
    → (d payload : Bytes)
    → (dispatch_notification m d payload ≡ some (sender, record { channel = d; pk_text = payload }))
      ↔ (channel ≡ d)
unfolding dispatch_notification
dispatch_notification_iff m channel sender h e d payload = (
  λ f. elim (Option-cases (lookup m.channels d)) [
    | inl never ↦ cc (rw (never, dispatch_notification) at f)
    | inr (s, found) ↦
        let same : some (s, message) ≡ some (sender, message) =
          rw (found, dispatch_notification) at f in
        h.separate channel d s (e ∙ ap some (sym (ap (λ p. p.0) (some_inj same)))) found
  ],
  λ p. rw (dispatch_notification, ap (lookup m.channels) (sym p) ∙ e) refl,
)
  where
    message : NotifyPayload
    message = record { channel = d; pk_text = payload }

-- On a manager that is tracked, as every one is that calls lead to, a receiver that a subscription
-- to a channel gave gets the next message of that channel, and a message that it gets is one of
-- that channel.
pub dispatch_notification-subscribe :
    (m : Manager) (channel : Bytes) (reply : Reply) (sender : ℕ)
    → IsTracked m
    → (subscribe m channel reply).0 ≡ ok sender
    → (d payload : Bytes)
    → (dispatch_notification (subscribe m channel reply).1 d payload
        ≡ some (sender, record { channel = d; pk_text = payload }))
      ↔ (channel ≡ d)
dispatch_notification-subscribe m channel reply sender h e d payload =
    dispatch_notification_iff (subscribe m channel reply).1 channel sender
      (subscribe-IsTracked m channel reply h) (lookup-subscribe m channel reply sender e) d payload
