-- ===== src/Rcon/Stream.antt =====
-- readFull (agent/rcon.go) against the flat stream of bytes that the connection delivers.
use game_server_manager.Base.{
  ℕ, zero, suc, ◌-◌, ◌≤◌, ◌<◌, ◌≡◌, refl, ap, ◌∙◌, sym, inl, inr, List, [], ◌∷◌, ◌++◌, arith,
  length, take, drop, concat, ltb, ltb→lt, length-append, take-append_left, drop-append_left,
  take-append_right, drop-append_right, Bool-cases, take-append_exact, drop-append_exact,
}
use game_server_manager.Rcon.{Bytes, ReadResult, got, read_failed, conn_error, read_full}

-- What a read of n bytes does to the flat stream.
pub data ReadsFlat (n : ℕ) (stream : Bytes) : ReadResult Bytes → Type 0 where
  enough :
      {bs : Bytes} {left : List Bytes}
      → n ≤ length stream
      → bs ≡ take n stream
      → concat left ≡ drop n stream
      → ReadsFlat n stream (got bs left)
  short : length stream < n → ReadsFlat n stream (read_failed conn_error)

ReadsFlat-chunk :
    (n : ℕ) (c : Bytes) (chunks : List Bytes) (r : ReadResult Bytes)
    → length c ≤ n
    → ReadsFlat (n - length c) (concat chunks) r
    → ReadsFlat n
        (c ++ concat chunks)
        (elim r [ got bs left ↦ got (c ++ bs) left | read_failed e ↦ read_failed e ])
ReadsFlat-chunk n c chunks (got bs left) h (enough fits taken rest) =
    enough (omega (arith, length-append c (concat chunks)))
      (ap (◌++◌ c) taken ∙ sym (take-append_right n c (concat chunks) h))
      (rest ∙ sym (drop-append_right n c (concat chunks) h))
ReadsFlat-chunk n c chunks (read_failed _) h (short missing) =
    short (omega (arith, length-append c (concat chunks)))

-- However the network cuts the stream into chunks, readFull fills the buffer with the next n bytes
-- of the stream and leaves the rest; it fails exactly when fewer than n bytes arrive.
pub read_full-ReadsFlat :
    (n : ℕ) (chunks : List Bytes) → ReadsFlat n (concat chunks) (read_full n chunks)
unfolding read_full
read_full-ReadsFlat zero chunks = enough (omega arith) refl refl
read_full-ReadsFlat (suc n) [] = short (omega arith)
read_full-ReadsFlat (suc n) (c ∷ chunks) = elim (Bool-cases (ltb (suc n) (length c))) [
  | inl e ↦
      let h : suc n ≤ length c = omega (arith, ltb→lt _ _ e) in
      rw e (
        enough (omega (arith, length-append c (concat chunks)))
          (sym (take-append_left (suc n) c (concat chunks) h))
          (sym (drop-append_left (suc n) c (concat chunks) h)))
  | inr e ↦ rw e (
      ReadsFlat-chunk (suc n) c chunks (read_full (suc n - length c) chunks) (ground arith)
        (read_full-ReadsFlat (suc n - length c) chunks))
]

-- A read of exactly the bytes at the head of the stream.
pub ReadsFlat-exact :
    (xs ys stream : Bytes) (r : ReadResult Bytes)
    → stream ≡ xs ++ ys
    → ReadsFlat (length xs) stream r
    → (left : List Bytes) × (r ≡ got xs left) × (concat left ≡ ys)
ReadsFlat-exact xs ys stream (got bs left) e (enough fits taken rest) = (
  left,
  ap (λ b. got b left) (taken ∙ ap (take (length xs)) e ∙ take-append_exact xs ys),
  rest ∙ ap (drop (length xs)) e ∙ drop-append_exact xs ys,
)
ReadsFlat-exact xs ys stream (read_failed _) e (short missing) =
    absurd (omega (arith, ap length e, length-append xs ys))
