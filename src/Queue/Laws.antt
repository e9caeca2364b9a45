-- ===== src/Queue/Laws.antt =====
-- First in, first out, within the capacity, and without a panic.
use mathlib.Core.List.{append_assoc}
use job_parser.Base.{
  ℕ, ◌≤◌, ◌<◌, ◌≡◌, refl, sym, ap, ◌∙◌, ◌⊎◌, inl, inr, true, false, some, List, [], ◌∷◌, ◌++◌,
  arith, length, length-append, All, if◌then◌else◌, Bool-cases, dec_lt,
}
use job_parser.Queue.{
  FifoQueue, new_fifo_queue, enqueue, close, clear, drain, Op, put, get, wipe, finish, Log, step,
  run,
}

module _ {ℓ} {A : Type ℓ} where
  pub record IsValid (q : FifoQueue A) : Type 0 where
    pub bounded : length q.items ≤ q.capacity
    pub together : q.shut ≡ q.closed

  drain-empty :
      (xs : List A) (q : FifoQueue A) → q.items ≡ xs → (drain xs q ≡ record q { items = [] })
  unfolding drain
  drain-empty [] q e = ground arith
  drain-empty (x ∷ xs) q e = drain-empty xs (record q { items = xs }) refl

  -- Clear empties an open queue and leaves a closed one alone.
  pub clear_lem : (q : FifoQueue A) → clear q ≡ (if q.closed then q else record q { items = [] })
  unfolding clear
  clear_lem q = ground (arith, drain-empty q.items q refl)

  -- No clearing: then nothing is lost.
  abbrev pub Keeps : Op A → Type 0
  Keeps (put a) = Unit
  Keeps get = Unit
  Keeps wipe = ⊥
  Keeps finish = Unit

  -- What was accepted is what was given out, then what is still queued.
  pub record IsFifo (l : Log A) : Type ℓ where
    pub valid : IsValid l.queue
    pub order : l.accepted ≡ l.given ++ l.queue.items

  -- On a valid queue Enqueue does not panic. It takes the item, at the end, exactly when the queue is
  -- open and not full, and otherwise changes nothing and returns false.
  pub enqueue_cases :
      (a : A) (q : FifoQueue A)
      → IsValid q
      → ((q.closed ≡ false)
          × (length q.items < q.capacity)
          × (enqueue a q ≡ some (record q { items = q.items ++ a ∷ [] }, true)))
        ⊎ (((q.closed ≡ true) ⊎ (length q.items ≡ q.capacity)) × (enqueue a q ≡ some (q, false)))
  unfolding enqueue
  enqueue_cases a q v = elim (Bool-cases q.closed) [
    | inl c ↦ inr (inl c, ground arith)
    | inr o ↦ elim (dec_lt (length q.items) q.capacity) [
      | yes h ↦ inl (o, h, ground arith)
      | no h ↦ inr (inr (omega (arith, v.bounded)), ground arith)
    ]
  ]

  step-put : (a : A) (l : Log A) → IsFifo l → (m : Log A) × (step (put a) l ≡ some m) × IsFifo m
  unfolding step
  step-put a l f = elim (enqueue_cases a l.queue f.valid) [
    | inl (o, room, e) ↦ (
      record l {
        queue = record l.queue { items = l.queue.items ++ a ∷ [] };
        accepted = l.accepted ++ a ∷ [];
      },
      ground (arith, e),
      record {
        valid = record {
          bounded = omega (arith, length-append l.queue.items (a ∷ []));
          together = f.valid.together;
        };
        order = rw f.order (append_assoc l.given l.queue.items (a ∷ []));
      },
    )
    | inr (why, e) ↦ (l, ground (arith, e), f)
  ]

  get-IsFifo :
      (xs : List A) (l : Log A)
      → l.queue.items ≡ xs
      → IsFifo l
      → (m : Log A) × (step get l ≡ some m) × IsFifo m
  unfolding step
  get-IsFifo [] l e f = (l, ground arith, f)
  get-IsFifo (x ∷ xs) l e f = (
    record l { queue = record l.queue { items = xs }; given = l.given ++ x ∷ [] },
    ground arith,
    record {
      valid = record {
        bounded = omega (arith, f.valid.bounded, ap length e);
        together = f.valid.together;
      };
      order = f.order ∙ ap (λ ys. l.given ++ ys) e ∙ sym (append_assoc l.given (x ∷ []) xs);
    },
  )

  close-IsFifo : (l : Log A) → IsFifo l → IsFifo (record l { queue = close l.queue })
  unfolding close
  close-IsFifo l f = ground (arith, f.valid, f.order)

  step-IsFifo :
      (o : Op A) (l : Log A) → IsFifo l → Keeps o → (m : Log A) × (step o l ≡ some m) × IsFifo m
  unfolding step
  step-IsFifo (put a) l f k = step-put a l f
  step-IsFifo get l f k = get-IsFifo l.queue.items l refl f
  step-IsFifo wipe l f k = absurd k
  step-IsFifo finish l f k = (record l { queue = close l.queue }, refl, close-IsFifo l f)

  run-IsFifo :
      (os : List (Op A)) (l : Log A)
      → IsFifo l
      → All Keeps os
      → (m : Log A) × (run os l ≡ some m) × IsFifo m
  unfolding run
  run-IsFifo [] l f k = (l, refl, f)
  run-IsFifo (o ∷ os) l f (k, ks) =
      let (m, e, g) = step-IsFifo o l f k in
      let (n, e', h) = run-IsFifo os m g ks in (n, rw (e, run) e', h)

  -- From an empty queue of any capacity, any Enqueue, Dequeue and Close calls one after another run
  -- without a panic; the queue never holds more than its capacity; and what was accepted is, in
  -- order, what was given out followed by what is still queued.
  pub run-new_IsFifo :
      (capacity : ℕ) (os : List (Op A))
      → All Keeps os
      → (m : Log A) × (run os
            (record { queue = new_fifo_queue capacity; accepted = []; given = [] })
          ≡ some m)
        × IsFifo m
  unfolding new_fifo_queue
  run-new_IsFifo capacity os k =
      run-IsFifo os _
        (record { valid = record { bounded = omega arith; together = refl }; order = refl }) k
