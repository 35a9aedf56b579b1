-- ===== src/Server/Bound.antt =====
-- The number of client threads of client_server/mtserver.c.
use distributed_system.Base.{
  ℕ, ◌+◌, ◌%◌, ◌^◌, ◌≤◌, ◌<◌, ◌≡◌, refl, ◌∙◌, inl, inr, arith, ltb, Bool-cases,
}
use distributed_system.Server.Threads.{
  Reach, Server, Step, accept_connection, accepting, count_thread, counting, end_thread, ending,
  first_start, here, onward,
}

-- numThread, with the thread that is not counted yet, is the number of the threads, modulo 2 ^ 32.
record IsCounted (s : Server) : Type 0 where
  word : s.max < 2 ^ 32
  count : (s.num_thread + s.pending) % 2 ^ 32 ≡ s.live
  small : s.num_thread < 2 ^ 32
  one : s.pending ≤ 1
  bound : s.live ≤ s.max

accept-IsCounted : (s : Server) → s.pending ≡ 0 → IsCounted s → IsCounted (accept_connection s)
unfolding accept_connection
accept-IsCounted s h c = elim (Bool-cases (ltb s.num_thread s.max)) [
  | inl e ↦ rw e (record {
    word = c.word;
    count = ground (arith, e, h, c.word, c.count, c.small, c.bound);
    small = c.small;
    one = omega arith;
    bound = ground (arith, e, h, c.word, c.count, c.small, c.bound);
  })
  | inr e ↦ rw e c
]

count-IsCounted : (s : Server) → s.pending ≡ 1 → IsCounted s → IsCounted (count_thread s)
unfolding count_thread
count-IsCounted s h c = record {
  word = c.word;
  count = omega (arith, h, c.count);
  small = omega arith;
  one = omega arith;
  bound = c.bound;
}

end-IsCounted : (s : Server) → 0 < s.live → IsCounted s → IsCounted (end_thread s)
unfolding end_thread
end-IsCounted s h c = record {
  word = c.word;
  count = omega (arith, h, c.count, c.small, c.one, c.word, c.bound);
  small = omega arith;
  one = c.one;
  bound = omega (arith, c.bound);
}

Step-IsCounted : {s t : Server} → Step s t → IsCounted s → IsCounted t
Step-IsCounted {s} (accepting h) c = accept-IsCounted s h c
Step-IsCounted {s} (counting h) c = count-IsCounted s h c
Step-IsCounted {s} (ending h) c = end-IsCounted s h c

Reach-IsCounted : {s t : Server} → IsCounted s → Reach s t → IsCounted t
Reach-IsCounted c here = c
Reach-IsCounted c (onward r e) = Step-IsCounted e (Reach-IsCounted c r)

first_start-IsCounted : (argument : ℕ) → IsCounted (first_start argument)
unfolding first_start
first_start-IsCounted argument = record {
  word = omega arith;
  count = refl;
  small = omega arith;
  one = omega arith;
  bound = omega arith;
}

Step-max : {t u : Server} → Step t u → u.max ≡ t.max
unfolding accept_connection count_thread end_thread
Step-max {t} (accepting h) = ground arith
Step-max (counting h) = refl
Step-max (ending h) = refl

Reach-max : {s t : Server} → Reach s t → t.max ≡ s.max
Reach-max here = refl
Reach-max (onward q e) = Step-max e ∙ Reach-max q

-- From the start, in whatever order connections are accepted, threads counted and threads ended, even
-- before they are counted: there are never more client threads than the argument allows, read as an
-- unsigned word, and numThread with the thread that is not counted yet is their number.
pub Reach-bound :
    (argument : ℕ) {s : Server}
    → Reach (first_start argument) s
    → (s.live ≤ argument % 2 ^ 32) × ((s.num_thread + s.pending) % 2 ^ 32 ≡ s.live)
unfolding first_start
Reach-bound argument {s} r =
    let c = Reach-IsCounted (first_start-IsCounted argument) r in
    (omega (arith, c.bound, Reach-max r), c.count)
