-- ===== src/Buffer/Removal.antt =====
-- SocketBuffer: `write` and `unload` take the oldest bytes out.
use xtracepp.Base.{
  ℕ, zero, suc, ◌+◌, ◌-◌, ◌≤◌, ◌<◌, ◌≡◌, refl, sym, ap, subst, ◌∙◌, inl, inr, ◌⊎◌, List, [], ◌∷◌,
  arith, le→leb, ==_iff, length, take, drop, drop-drop, drop-take, none, ok, sub_size,
  sub_size_exact,
}
use xtracepp.Buffer.{
  SocketBuffer, unknown_sz, size, unparsed, contents, sent, write_n, unload, unload_to,
}
use xtracepp.Buffer.Wellformed.{IsValid, size_exact, unparsed_exact}
use xtracepp.Buffer.Transfer.{contents_exact, length-contents, Discarded, discard_front_lem}

-- `c` is `b` without its oldest `n` bytes, and `parsed` of what is left are marked as parsed.
pub record Removed (b : SocketBuffer) (n parsed : ℕ) (c : SocketBuffer) : Type 0 where
  pub valid : IsValid c
  pub rest : contents c ≡ drop n (contents b)
  pub storage_kept : c.storage ≡ b.storage
  pub left : c.bytes_parsed ≡ parsed
  pub held : c.bytes_read - c.bytes_written + n ≡ b.bytes_read - b.bytes_written
  pub message_kept :
      ((c.next_message_sz ≡ unknown_sz) × (contents c ≡ []))
      ⊎ ((c.next_message_sz ≡ b.next_message_sz) × (0 < length (contents c)))

drop_all {ℓ} : {A : Type ℓ} (n : ℕ) (xs : List A) → length xs ≤ n → drop n xs ≡ []
drop_all zero [] h = refl
drop_all zero (x ∷ xs) h = absurd (omega arith)
drop_all (suc n) [] h = refl
drop_all (suc n) (x ∷ xs) h = drop_all n xs (omega arith)

abbrev drained : SocketBuffer → SocketBuffer
drained b = record b {
  bytes_read = 0;
  next_message_sz = unknown_sz;
  bytes_parsed = 0;
  bytes_written = 0;
}

abbrev advanced : SocketBuffer → ℕ → ℕ → SocketBuffer
advanced b n parsed = record b { bytes_written = b.bytes_written + n; bytes_parsed = parsed }

module _ (b : SocketBuffer) (n parsed : ℕ) (v : IsValid b) where
  Removed-drained : b.bytes_written + n ≡ b.bytes_read → parsed ≡ 0 → Removed b n parsed (drained b)
  unfolding contents size sub_size
  Removed-drained e z = record {
    valid = record {
      parsed_within = omega arith;
      stored = omega arith;
      bounded = v.bounded;
      message_bounded = omega arith;
      reset = λ _. refl;
    };
    rest = sym (drop_all n (contents b) (omega (arith, length-contents v)));
    storage_kept = refl;
    left = sym z;
    held = omega arith;
    message_kept = inl (refl, refl);
  }

  Removed-advanced :
      b.bytes_written + n < b.bytes_read
      → b.bytes_written + n + parsed ≤ b.bytes_read
      → Removed b n parsed (advanced b n parsed)
  Removed-advanced less h =
      let valid : IsValid (advanced b n parsed) = record {
        parsed_within = h;
        stored = v.stored;
        bounded = v.bounded;
        message_bounded = v.message_bounded;
        reset = λ e. absurd (omega arith);
      } in
      record {
        valid = valid;
        rest =
            contents_exact valid
            ∙ ap (take (b.bytes_read - (b.bytes_written + n)))
                (sym (drop-drop b.bytes_written n (b.bytes_written + n) b.storage refl))
            ∙ sym (
                drop-take n (b.bytes_read - (b.bytes_written + n)) (b.bytes_read - b.bytes_written)
                  (drop b.bytes_written b.storage) (omega arith))
            ∙ ap (drop n) (sym (contents_exact v));
        storage_kept = refl;
        left = refl;
        held = omega arith;
        message_kept = inr (refl, omega (arith, length-contents valid));
      }

  Discarded-Removed :
      (c : SocketBuffer)
      → b.bytes_written + n + parsed ≤ b.bytes_read
      → Discarded (record b { bytes_parsed = parsed }) n c
      → Removed b n parsed c
  Discarded-Removed c h (inl (e, p)) =
      subst (Removed b n parsed) (sym p) (Removed-drained e (omega arith))
  Discarded-Removed c h (inr (e, p)) = subst (Removed b n parsed) (sym p) (Removed-advanced e h)

-- The bytes that `send` and `memcpy` are handed are the oldest `n` of the buffer.
pub front_exact :
    (b : SocketBuffer) (n : ℕ)
    → IsValid b
    → b.bytes_written + n ≤ b.bytes_read
    → take n (drop b.bytes_written b.storage) ≡ take n (contents b)
front_exact b n v h =
    let k : ℕ = b.bytes_read - b.bytes_written in
    let st : List ℕ = drop b.bytes_written b.storage in
    take-take_le n k st (omega arith) ∙ ap (take n) (sym (contents_exact v))
  where
    take-take_le : (m j : ℕ) (xs : List ℕ) → m ≤ j → take m xs ≡ take m (take j xs)
    take-take_le zero j xs p = refl
    take-take_le (suc m) zero xs p = absurd (omega arith)
    take-take_le (suc m) (suc j) [] p = refl
    take-take_le (suc m) (suc j) (x ∷ xs) p = ap (◌∷◌ x) (take-take_le m j xs (omega arith))

-- `write` of parsed bytes sends the oldest bytes and keeps the others.
pub write_n_lem :
    (b : SocketBuffer) (n : ℕ)
    → IsValid b
    → n ≤ b.bytes_parsed
    → (c : SocketBuffer) × (write_n b n (sent n) ≡ ok (c, n, none))
      × Removed b n (b.bytes_parsed - n) c
      × (unparsed c ≡ unparsed b)
unfolding write_n
write_n_lem b n v h =
    let left : ℕ = sub_size b.bytes_parsed n in
    let exact : left ≡ b.bytes_parsed - n =
      sub_size_exact b.bytes_parsed n (omega (arith, v.parsed_within)) h in
    let (c, discarded, d) =
      discard_front_lem (record b { bytes_parsed = left }) n (omega (arith, v.parsed_within))
        (omega arith) in
    let r =
      subst (λ t. Removed b n t c) exact
        (Discarded-Removed b n left v c (omega (arith, v.parsed_within)) d) in
    (
      c,
      rw (le→leb n b.bytes_parsed h, (==_iff n n).1 refl, discarded),
      r,
      omega (arith, unparsed_exact v, unparsed_exact r.valid, r.left, r.held, v.parsed_within),
    )

-- `unload` of no more than there is, with nothing parsed.
pub unload_to_lem :
    (b : SocketBuffer) (n : ℕ)
    → IsValid b
    → b.bytes_parsed ≡ 0
    → n ≤ b.bytes_read - b.bytes_written
    → (c : SocketBuffer) × (unload_to b n ≡ ok (c, take n (contents b), n))
      × (unload b n ≡ ok (c, n))
      × Removed b n 0 c
unfolding unload_to unload
unload_to_lem b n v e h =
    let (c, discarded, d) = discard_front_lem b n (omega (arith, v.parsed_within)) (omega arith) in
    let r =
      subst (λ t. Removed b n t c) e
        (Discarded-Removed b n b.bytes_parsed v c (omega (arith, v.parsed_within)) d) in
    let inside = le→leb n (size b) (omega (arith, size_exact v)) in
    (
      c,
      rw (inside, discarded)
          (ap (λ (t : List ℕ). ok (c, t, n)) (front_exact b n v (omega (arith, v.parsed_within)))),
      rw (inside, discarded),
      r,
    )
