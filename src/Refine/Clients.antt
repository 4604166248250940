-- ===== src/Refine/Clients.antt =====
-- The ids that two clients of one server are given.
use redis_virtual_file_syste.Common.{
  ℕ, ◌+◌, ◌≤◌, ◌<◌, ◌≡◌, refl, Bytes, pos, some, arith, ap, sym, ◌∙◌,
}
use redis_virtual_file_syste.Libc.Decimal.{long_max, decimal, strtol}
use redis_virtual_file_syste.Libc.RoundTrip.{strtol-decimal}
use redis_virtual_file_syste.Redis.{Redis, IsRedis, reply_str, string}
use redis_virtual_file_syste.Keys.{current_id_count}
use redis_virtual_file_syste.Vfs.Create.{get_new_id}
use redis_virtual_file_syste.Vfs.Clients.{
  Client, waiting, asked, returned, Sends, sends_get, sends_incr, Clients, Reach, here, first_sends,
  second_sends,
}

-- INCRs that a client has yet to send.
abbrev pending : Client → ℕ
pending (returned id) = 0
pending _ = 1

-- An id that was read is at most the counter, and one that was returned lies below it.
abbrev pub IsBelow : ℕ → Client → Type 0
IsBelow n waiting = Unit {0}
IsBelow n (asked id) = (m : ℕ) × (id ≡ pos m) × (m ≤ n)
IsBelow n (returned id) = (m : ℕ) × (id ≡ pos m) × (m < n)

IsBelow-suc : (n : ℕ) (a : Client) → IsBelow n a → IsBelow (n + 1) a
IsBelow-suc n waiting below = tt
IsBelow-suc n (asked id) (m, e, le) = (m, e, omega arith)
IsBelow-suc n (returned id) (m, e, lt) = (m, e, omega arith)

module _ (r : Redis) (laws : IsRedis r) where
  abbrev pub Counter : r.Db → ℕ → Type 0
  Counter d n = laws.value d current_id_count ≡ string (decimal n)

  pub get-Counter :
      (d : r.Db) (n : ℕ) (s : Bytes)
      → Counter d n
      → reply_str (r.get d current_id_count) ≡ some s
      → decimal n ≡ s
  get-Counter d n s counter reply =
      cc (sym (ap reply_str (laws.get-string d current_id_count (decimal n) counter)) ∙ reply)

  -- After a client's command: the counter, with what it and the other client have.
  Sends-IsBelow :
      (d d' : r.Db) (a a' other : Client) (n : ℕ)
      → Sends r d a d' a'
      → Counter d n
      → n + pending a ≤ long_max
      → IsBelow n a
      → IsBelow n other
      → (n' : ℕ) × Counter d' n'
        × (n' + pending a' ≡ n + pending a)
        × IsBelow n' a'
        × IsBelow n' other
  Sends-IsBelow d d' a a' other n (sends_get {s = s} reply) counter room below below' = (
    n,
    counter,
    refl,
    (
      n,
      ap strtol (sym (get-Counter d n s counter reply)) ∙ strtol-decimal n (omega arith),
      omega arith,
    ),
    below',
  )
  Sends-IsBelow d d' a a' other n (sends_incr {id = id}) counter room (m, e, le) below' = (
    n + 1,
    laws.value-incr d current_id_count n (omega arith) counter,
    omega arith,
    (m, e, omega arith),
    IsBelow-suc n other below',
  )

  module _ (d : r.Db) (n : ℕ) (counter : Counter d n) (room : n + 2 ≤ long_max) where
    abbrev start : Clients r
    start = record { db = d; first = waiting; second = waiting }

    -- The counter of a state that the clients have led to.
    pub record Counted (s : Clients r) : Type 0 where
      pub count : ℕ
      pub counted : Counter s.db count
      pub bound : count + (pending s.first + pending s.second) ≡ n + 2
      pub first_below : IsBelow count s.first
      pub second_below : IsBelow count s.second

    pub Reach-Counted : (s : Clients r) → Reach r start s → Counted s
    Reach-Counted s here = record {
      count = n;
      counted = counter;
      bound = refl;
      first_below = tt;
      second_below = tt;
    }
    Reach-Counted s (first_sends {d = d} {d' = d'} {a = a} {a' = a'} {b = b} before sent) =
        let h = Reach-Counted (record { db = d; first = a; second = b }) before in
        let (count, counted, bound, below, other) =
          Sends-IsBelow d d' a a' b h.count sent h.counted (omega (arith, h.bound)) h.first_below
            h.second_below in
        record {
          count = count;
          counted = counted;
          bound = omega (arith, h.bound, bound);
          first_below = below;
          second_below = other;
        }
    Reach-Counted s (second_sends {d = d} {d' = d'} {a = a} {b = b} {b' = b'} before sent) =
        let h = Reach-Counted (record { db = d; first = a; second = b }) before in
        let (count, counted, bound, below, other) =
          Sends-IsBelow d d' b b' a h.count sent h.counted (omega (arith, h.bound)) h.second_below
            h.first_below in
        record {
          count = count;
          counted = counted;
          bound = omega (arith, h.bound, bound);
          first_below = other;
          second_below = below;
        }

    -- Two clients of one server each run `getNewId`, with the other's command between their own
    -- two in any order, from a counter that is at least two below LONG_MAX: in every state that
    -- this leads to, `getNewId` of a further client returns an id above every id that was
    -- returned before, and not below an id that a client has read and not yet counted.
    pub get_new_id-IsBelow :
        (s : Clients r)
        → Reach r start s
        → (count : ℕ) × ((get_new_id r s.db).0 ≡ pos count)
          × IsBelow count s.first
          × IsBelow count s.second
    unfolding get_new_id
    get_new_id-IsBelow s reach =
        let h = Reach-Counted s reach in
        (
          h.count,
          rw (laws.get-string s.db current_id_count (decimal h.count) h.counted, get_new_id)
              (strtol-decimal h.count (omega (arith, h.bound))),
          h.first_below,
          h.second_below,
        )

    -- From a counter that is at least two below LONG_MAX, the commands of two clients in
    -- `getNewId` can come in an order that gives both the same id, and leaves the counter two
    -- higher.
    pub same_id-Reach :
        (d' : r.Db) × Reach r start
          (record { db = d'; first = returned (pos n); second = returned (pos n) })
        × Counter d' (n + 2)
    same_id-Reach =
        let reply : reply_str (r.get d current_id_count) ≡ some (decimal n) =
          ap reply_str (laws.get-string d current_id_count (decimal n) counter) in
        let read : strtol (decimal n) ≡ pos n = strtol-decimal n (omega arith) in
        let d₁ = r.incr d current_id_count in
        let id = strtol (decimal n) in
        let asked_both : Reach r start (record { db = d; first = asked id; second = asked id }) =
          second_sends (first_sends here (sends_get reply)) (sends_get reply) in
        let reach : Reach r start (record {
          db = r.incr d₁ current_id_count;
          first = returned id;
          second = returned id;
        }) =
          second_sends (first_sends asked_both sends_incr) sends_incr in
        (
          r.incr d₁ current_id_count,
          rw read at reach,
          laws.value-incr d₁ current_id_count (n + 1) (omega arith)
                (laws.value-incr d current_id_count n (omega arith) counter)
              ∙ ap (λ k. string (decimal k)) (omega arith),
        )
