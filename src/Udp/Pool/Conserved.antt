-- ===== src/Udp/Pool/Conserved.antt =====
-- Packets in use never share a buffer, and every buffer comes back.
use playit_ios.Common.{
  ℕ, zero, suc, ◌+◌, ◌*◌, if-both, ◌≤◌, ◌≡◌, refl, ap, subst, arith, List, [], ◌∷◌, ◌++◌, length,
  length-append, ltb, lt→ltb, leb, ◌==◌, if◌then◌else◌, some,
}
use playit_ios.Udp.Pool.{
  Packets, buffers, new_packets, allocate, pop, push, drop_packet, next_power_of_two, power_from,
}

abbrev pub occurs : ℕ → List ℕ → ℕ
occurs x [] = 0
occurs x (y ∷ ys) = (if x == y then 1 else 0) + occurs x ys

occurs-append : (x : ℕ) (xs ys : List ℕ) → occurs x (xs ++ ys) ≡ occurs x xs + occurs x ys
occurs-append x [] ys = omega arith
occurs-append x (y ∷ ys) zs = omega (arith, occurs-append x ys zs)

-- The pool and the buffers of the packets that exist.
pub record Pool : Type 0 where
  pub packets : Packets
  pub held : List ℕ

-- A packet is taken from the pool, or one of the packets, wherever it stands, is dropped.
pub data Step : Pool → Pool → Type 0 where
  take_packet :
      (s : Pool) (buffer : ℕ) (p : Packets)
      → allocate s.packets ≡ some (buffer, p)
      → Step s (record { packets = p; held = buffer ∷ s.held })
  give_back :
      (p p' : Packets) (before after : List ℕ) (buffer : ℕ)
      → drop_packet p buffer ≡ some p'
      → Step
          (record { packets = p; held = before ++ (buffer ∷ after) })
          (record { packets = p'; held = before ++ after })

pub data Reach (s : Pool) : Pool → Type 0 where
  here : Reach s s
  next : {t u : Pool} → Reach s t → Step t u → Reach s u

-- Each buffer below the count is free or held, once; nothing else is.
pub record Conserved (n : ℕ) (s : Pool) : Type 0 where
  pub count : s.packets.packet_count ≡ n
  pub total : length s.packets.free_packets + length s.held ≡ n
  pub once :
      (x : ℕ) → occurs x s.packets.free_packets + occurs x s.held ≡ (if ltb x n then 1 else 0)

length-buffers : (i n : ℕ) → length (buffers i n) ≡ n
unfolding buffers
length-buffers i zero = refl
length-buffers i (suc n) = ap suc (length-buffers (suc i) n)

occurs-buffers :
    (x i n : ℕ) → occurs x (buffers i n) ≡ (if leb i x then (if ltb x (i + n) then 1 else 0) else 0)
unfolding buffers
occurs-buffers x i zero = ground arith
occurs-buffers x i (suc n) = ground (arith, occurs-buffers x (suc i) n)

-- A pool of `packet_count` buffers, before any packet.
abbrev pub fresh : ℕ → Pool
fresh n = record { packets = new_packets n; held = [] }

fresh-Conserved : (n : ℕ) → Conserved (next_power_of_two n) (fresh n)
unfolding new_packets
fresh-Conserved n =
    let m = next_power_of_two n in
    record {
      count = refl;
      total = omega (arith, length-buffers 0 m);
      once = λ x. ground (arith, occurs-buffers x 0 m);
    }

pop-Conserved :
    (n count : ℕ) (free held : List ℕ) (buffer : ℕ) (p : Packets)
    → Conserved n
        (record { packets = record { packet_count = count; free_packets = free }; held = held })
    → pop free count ≡ some (buffer, p)
    → Conserved n (record { packets = p; held = buffer ∷ held })
unfolding pop
pop-Conserved n count [] held buffer p h e = cc
pop-Conserved n count (b ∷ free) held buffer p h e =
    let same : ◌≡◌ {A = ℕ × Packets} (b, record { packet_count = count; free_packets = free })
        (buffer, p) =
      cc in
    subst (λ (r : ℕ × Packets). Conserved n (record { packets = r.1; held = r.0 ∷ held })) same
      (record {
        count = h.count;
        total = omega (arith, h.total);
        once = λ x. omega (arith, h.once x);
      })

-- A packet that exists can be dropped.
drops :
    (n : ℕ) (p : Packets) (before after : List ℕ) (buffer : ℕ)
    → Conserved n (record { packets = p; held = before ++ (buffer ∷ after) })
    → drop_packet p buffer ≡ some (record p { free_packets = p.free_packets ++ (buffer ∷ []) })
unfolding drop_packet push
drops n p before after buffer h =
    rw
      (lt→ltb (length p.free_packets) p.packet_count
        (omega (arith, h.count, h.total, length-append before (buffer ∷ after))))
      refl

dropped-Conserved :
    (n : ℕ) (p : Packets) (before after : List ℕ) (buffer : ℕ)
    → Conserved n (record { packets = p; held = before ++ (buffer ∷ after) })
    → Conserved n (record {
      packets = record p { free_packets = p.free_packets ++ (buffer ∷ []) };
      held = before ++ after;
    })
dropped-Conserved n p before after buffer h = record {
  count = h.count;
  total = omega (
    arith,
    h.total,
    length-append before (buffer ∷ after),
    length-append before after,
    length-append p.free_packets (buffer ∷ []),
  );
  once = λ x. omega (
    arith,
    h.once x,
    occurs-append x before (buffer ∷ after),
    occurs-append x before after,
    occurs-append x p.free_packets (buffer ∷ []),
  );
}

Step-Conserved : (n : ℕ) {s t : Pool} → Step s t → Conserved n s → Conserved n t
unfolding allocate
Step-Conserved n (take_packet s buffer p e) h =
    pop-Conserved n s.packets.packet_count s.packets.free_packets s.held buffer p h e
Step-Conserved n (give_back p p' before after buffer e) h =
    let left : Packets = record p { free_packets = p.free_packets ++ (buffer ∷ []) } in
    let dropped = drops n p before after buffer h in
    let same : left ≡ p' = cc in
    subst (λ q. Conserved n (record { packets = q; held = before ++ after })) same
      (dropped-Conserved n p before after buffer h)

Reach-Conserved : (n : ℕ) {s t : Pool} → Conserved n s → Reach s t → Conserved n t
Reach-Conserved n h here = h
Reach-Conserved n h (next r step) = Step-Conserved n step (Reach-Conserved n h r)

power_from_le : (fuel n p : ℕ) → 1 ≤ p → n ≤ p + fuel → n ≤ power_from fuel n p
unfolding power_from
power_from_le zero n p one h = omega arith
power_from_le (suc fuel) n p one h =
    if-both (λ q. n ≤ q) (leb n p) {x = p} {y = power_from fuel n (2 * p)} (λ e. ground arith)
      (λ e. power_from_le fuel n (2 * p) (omega arith) (omega arith))

-- A pool has at least the buffers that were asked for.
next_power_of_two_le : (n : ℕ) → n ≤ next_power_of_two n
unfolding next_power_of_two
next_power_of_two_le n = power_from_le n n 1 (omega arith) (omega arith)

-- A pool has at least the buffers that were asked for, and after any sequence of allocations and
-- drops of packets each buffer is free or belongs to one packet, never both nor twice; whichever
-- of the packets is dropped next, its buffer fits into the queue, so that the `expect` of the drop
-- does not fail.
pub reached-Conserved :
    (n : ℕ) {s : Pool}
    → Reach (fresh n) s
    → (n ≤ next_power_of_two n)
      × Conserved (next_power_of_two n) s
      × ((before after : List ℕ) (buffer : ℕ)
          → s.held ≡ before ++ (buffer ∷ after)
          → (p : Packets) × (drop_packet s.packets buffer ≡ some p))
reached-Conserved n {s = s} r =
    let h = Reach-Conserved (next_power_of_two n) (fresh-Conserved n) r in
    (
      next_power_of_two_le n,
      h,
      λ before after buffer e. (
        _,
        drops (next_power_of_two n) s.packets before after buffer (
            subst (λ l. Conserved (next_power_of_two n) (record { packets = s.packets; held = l }))
              e h),
      ),
    )
