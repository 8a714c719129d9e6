-- ===== src/Buffer/Refinement.antt =====
-- SocketBuffer does what the queue of Stream.antt does, for one operation and for any sequence.
use mathlib.Core.Option.{some-injective}
use xtracepp.Base.{
  ℕ, ◌+◌, ◌-◌, ◌≤◌, ◌<◌, ◌≡◌, refl, sym, ap, subst, ◌⊎◌, ◌∙◌, inl, inr, true, Bool-cases,
  Option-cases, List, [], ◌∷◌, ◌++◌, arith, ltb, leb, ◌==◌, leb→le, le→leb, ltb→lt, ==_iff, length,
  take, drop, Option, none, some, Outcome, ok, ◌>>=◌, add_size, size_mod, add_size_exact,
}
use xtracepp.Buffer.{
  SocketBuffer, unknown_sz, block_sz, size, contents, set_message_size, mark_message_parsed,
}
use xtracepp.Buffer.Wellformed.{IsValid, size_exact}
use xtracepp.Buffer.Transfer.{length-contents, Appended, load_lem, read_n_received}
use xtracepp.Buffer.Removal.{Removed, write_n_lem, unload_to_lem, front_exact}
use xtracepp.Buffer.Stream.{
  Stream, Operation, receives, loads, sizes, marks, sends, unloads, operate, queue, view, cost,
  Follows, message_of, when_any, after_front,
}

-- An answer of the queue that is known determines the state and the output.
Follows-answer :
    (b : SocketBuffer) (op : Operation) (s t : Stream) (out away : List ℕ)
    → ◌≡◌ {A = Option (Stream × List ℕ)} (some (t, away)) (some (s, out))
    → Follows b op t away
    → Follows b op s out
Follows-answer b op s t out away e f =
    subst (λ (r : Stream × List ℕ). Follows b op r.0 r.1) (some-injective (t, away) (s, out) e) f

view-Appended :
    (b c : SocketBuffer) (n : ℕ) (bytes : List ℕ)
    → Appended b n bytes c
    → view c ≡ record (view b) { bytes = contents b ++ bytes }
view-Appended b c n bytes a = λ i. record {
  bytes = a.appended i;
  parsed = a.parsed_kept i;
  message = message_of (a.message_kept i);
}

when_any_some : (xs : List ℕ) (m : Option ℕ) → 0 < length xs → when_any xs m ≡ m
when_any_some [] m h = absurd (omega arith)
when_any_some (x ∷ xs) m h = refl

message_front :
    (mc mb : ℕ) (xs : List ℕ)
    → ((mc ≡ unknown_sz) × (xs ≡ [])) ⊎ ((mc ≡ mb) × (0 < length xs))
    → message_of mc ≡ when_any xs (message_of mb)
message_front mc mb xs (inl (m, e)) = rw (m, e)
message_front mc mb xs (inr (m, e)) = rw m (sym (when_any_some xs (message_of mb) e))

view-Removed :
    (b c : SocketBuffer) (n parsed : ℕ)
    → Removed b n parsed c
    → view c ≡ after_front (view b) n parsed
view-Removed b c n parsed r =
    λ i. record { bytes = r.rest i; parsed = r.left i; message = message i }
  where
    message :
        message_of c.next_message_sz ≡ when_any (drop n (contents b)) (message_of b.next_message_sz)
    message =
        message_front c.next_message_sz b.next_message_sz (contents c) r.message_kept
        ∙ ap (λ (t : List ℕ). when_any t (message_of b.next_message_sz)) r.rest

message_of_known : (m : ℕ) → m < unknown_sz → message_of m ≡ some m
message_of_known m h = ground arith

module _ (b : SocketBuffer) (v : IsValid b) where
  receives-Follows :
      (n : ℕ) (bytes : List ℕ)
      → length b.storage + n + block_sz < size_mod
      → length bytes ≤ n
      → Follows b (receives n bytes) (record (view b) { bytes = contents b ++ bytes }) []
  unfolding operate
  receives-Follows n bytes room few =
      let (c, done, a) = read_n_received b n bytes v few room in
      (c, rw done, a.valid, view-Appended b c n bytes a, omega (arith, a.growth))

  loads-Follows :
      (bytes : List ℕ)
      → length b.storage + length bytes + block_sz < size_mod
      → 0 < length bytes
      → Follows b (loads bytes) (record (view b) { bytes = contents b ++ bytes }) []
  unfolding operate
  loads-Follows bytes room any =
      let (c, done, a) = load_lem b bytes v any room in
      (c, rw done, a.valid, view-Appended b c (length bytes) bytes a, omega (arith, a.growth))

  sends-Follows :
      (n : ℕ)
      → n ≤ b.bytes_parsed
      → Follows b (sends n) (after_front (view b) n (b.bytes_parsed - n)) (take n (contents b))
  unfolding operate
  sends-Follows n h =
      let (c, done, r, _) = write_n_lem b n v h in
      (
        c,
        rw done
            (ap (λ (t : List ℕ). ok (c, t)) (front_exact b n v (omega (arith, v.parsed_within)))),
        r.valid,
        view-Removed b c n (b.bytes_parsed - n) r,
        omega (arith, ap length r.storage_kept),
      )

  unloads-Follows :
      (n : ℕ)
      → b.bytes_parsed ≡ 0
      → n ≤ length (contents b)
      → Follows b (unloads n) (after_front (view b) n 0) (take n (contents b))
  unfolding operate
  unloads-Follows n z h =
      let (c, done, _, r) = unload_to_lem b n v z (omega (arith, length-contents v)) in
      (c, rw done, r.valid, view-Removed b c n 0 r, omega (arith, ap length r.storage_kept))

  sizes-Follows :
      (m : ℕ)
      → b.next_message_sz ≡ unknown_sz
      → m < unknown_sz
      → Follows b (sizes m) (record (view b) { message = some m }) []
  unfolding operate set_message_size contents
  sizes-Follows m unset known = (
    record b { next_message_sz = m },
    ground arith,
    record {
      parsed_within = v.parsed_within;
      stored = v.stored;
      bounded = v.bounded;
      message_bounded = omega arith;
      reset = v.reset;
    },
    λ i. record {
      bytes = contents b;
      parsed = b.bytes_parsed;
      message = message_of_known m known i;
    },
    omega arith,
  )

  marks-Follows :
      (m : ℕ)
      → b.next_message_sz ≡ m
      → m < unknown_sz
      → b.bytes_parsed + m ≤ length (contents b)
      → Follows b marks (record (view b) { parsed = b.bytes_parsed + m; message = none }) []
  unfolding operate mark_message_parsed contents
  marks-Follows m is_set known h =
      let held = length-contents v in
      let sum : add_size b.bytes_parsed b.next_message_sz ≡ b.bytes_parsed + m =
        ap (add_size b.bytes_parsed) is_set ∙ add_size_exact b.bytes_parsed m (omega arith) in
      let inside : leb (add_size b.bytes_parsed b.next_message_sz) (size b) ≡ true =
        le→leb _ _ (omega (arith, size_exact v)) in
      (
        record b {
          bytes_parsed = add_size b.bytes_parsed b.next_message_sz;
          next_message_sz = unknown_sz;
        },
        ground (arith, inside),
        record {
          parsed_within = omega (arith, v.parsed_within);
          stored = v.stored;
          bounded = v.bounded;
          message_bounded = omega arith;
          reset = v.reset;
        },
        λ i. record { bytes = contents b; parsed = sum i; message = none },
        omega arith,
      )

-- Where the queue can do an operation, the class does it, and shows what the queue shows.
pub operate-queue :
    (b : SocketBuffer) (op : Operation) (s : Stream) (out : List ℕ)
    → IsValid b
    → length b.storage + cost op < size_mod
    → queue (view b) op ≡ some (s, out)
    → Follows b op s out
unfolding queue
operate-queue b (receives n bytes) s out v room e = elim (Bool-cases (leb (length bytes) n)) [
  | inl few ↦
      Follows-answer b _ s _ out [] (rw few at e)
        (receives-Follows b v n bytes (omega arith) (leb→le _ n few))
  | inr many ↦ cc (rw many at e)
]
operate-queue b (loads bytes) s out v room e = elim (Bool-cases (ltb 0 (length bytes))) [
  | inl any ↦
      Follows-answer b _ s _ out [] (rw any at e)
        (loads-Follows b v bytes (omega arith) (ltb→lt _ _ any))
  | inr nothing ↦ cc (rw nothing at e)
]
operate-queue b (sizes m) s out v room e = elim (Bool-cases (b.next_message_sz == unknown_sz)) [
  | inl unset ↦ elim (Bool-cases (ltb m unknown_sz)) [
    | inl known ↦
        Follows-answer b _ s _ out [] (rw (unset, queue, known) at e)
          (sizes-Follows b v m ((==_iff _ _).0 unset) (ltb→lt _ _ known))
    | inr unknown ↦ cc (rw (unset, queue, unknown) at e)
  ]
  | inr is_set ↦ cc (rw is_set at e)
]
operate-queue b marks s out v room e = elim (Bool-cases (b.next_message_sz == unknown_sz)) [
  | inl unset ↦ cc (rw unset at e)
  | inr is_set ↦
      elim (Bool-cases (leb (b.bytes_parsed + b.next_message_sz) (length (contents b)))) [
        | inl inside ↦ Follows-answer b _ s _ out [] (rw (is_set, queue, inside) at e) (
            marks-Follows b v b.next_message_sz refl (ground (arith, v.message_bounded))
              (leb→le _ _ inside))
        | inr beyond ↦ cc (rw (is_set, queue, beyond) at e)
      ]
]
operate-queue b (sends n) s out v room e = elim (Bool-cases (leb n b.bytes_parsed)) [
  | inl inside ↦
      Follows-answer b _ s _ out _ (rw inside at e) (sends-Follows b v n (leb→le _ _ inside))
  | inr beyond ↦ cc (rw beyond at e)
]
operate-queue b (unloads n) s out v room e = elim (Bool-cases (b.bytes_parsed == 0)) [
  | inl none_parsed ↦ elim (Bool-cases (leb n (length (contents b)))) [
    | inl inside ↦
        Follows-answer b _ s _ out _ (rw (none_parsed, inside) at e)
          (unloads-Follows b v n ((==_iff _ _).0 none_parsed) (leb→le _ _ inside))
    | inr beyond ↦ cc (rw (none_parsed, beyond) at e)
  ]
  | inr some_parsed ↦ cc (rw some_parsed at e)
]

-- A sequence of operations, and all that leaves the buffer.
unfoldable pub operate_all : SocketBuffer → List Operation → Outcome (SocketBuffer × List ℕ)
operate_all b [] = ok (b, [])
operate_all b (op ∷ ops) = do
  (c, out) ← operate b op
  (d, more) ← operate_all c ops
  ok (d, out ++ more)

abbrev then_queue : List ℕ → Option (Stream × List ℕ) → Option (Stream × List ℕ)
then_queue out none = none
then_queue out (some (s, more)) = some (s, out ++ more)

unfoldable pub queue_all : Stream → List Operation → Option (Stream × List ℕ)
queue_all s [] = some (s, [])
queue_all s (op ∷ ops) = elim (queue s op) [
  | none ↦ none
  | some (t, out) ↦ then_queue out (queue_all t ops)
]

abbrev pub total_cost : List Operation → ℕ
total_cost [] = 0
total_cost (op ∷ ops) = cost op + total_cost ops

-- Whatever sequence of operations the queue allows, the class performs without a failed assert,
-- with the same bytes leaving it, and it ends in the queue's state.
pub operate_all-queue_all :
    (ops : List Operation) (b : SocketBuffer) (s : Stream) (out : List ℕ)
    → IsValid b
    → length b.storage + total_cost ops < size_mod
    → queue_all (view b) ops ≡ some (s, out)
    → (c : SocketBuffer) × (operate_all b ops ≡ ok (c, out)) × IsValid c × (view c ≡ s)
unfolding operate_all queue_all
operate_all-queue_all [] b s out v room e =
    let p = some-injective (view b, []) (s, out) e in
    (b, ap (λ (r : Stream × List ℕ). ok (b, r.1)) p, v, ap (λ (r : Stream × List ℕ). r.0) p)
operate_all-queue_all (op ∷ ops) b s out v room e = elim (Option-cases (queue (view b) op)) [
  | inl stuck ↦ cc (rw (queue_all, stuck) at e)
  | inr ((t, first), q) ↦
      let (c, done, vc, shows, grown) = operate-queue b op t first v (omega arith) q in
      elim (Option-cases (queue_all t ops)) [
        | inl stuck ↦ cc (rw (queue_all, q, stuck) at e)
        | inr ((u, more), rest) ↦
            let (d, done', vd, shows') =
              operate_all-queue_all ops c u more vc (omega arith) (rw shows rest) in
            let p = some-injective (u, first ++ more) (s, out) (rw (queue_all, q, rest) at e) in
            (
              d,
              rw (done, done') (ap (λ (r : Stream × List ℕ). ok (d, r.1)) p),
              vd,
              shows' ∙ ap (λ (r : Stream × List ℕ). r.0) p,
            )
      ]
]
