-- ===== src/Rcon/Codec.antt =====
-- rconSend and rconRead (agent/rcon.go): the packet format, and reading back what was sent.
use game_server_manager.Base.{
  ℕ, zero, suc, ◌+◌, ◌-◌, ◌%◌, ◌^◌, ◌≤◌, ◌<◌, ◌≡◌, refl, ap, ◌∙◌, true, false, some, List, [], ◌∷◌,
  ◌++◌, arith, length, concat, replicate, ltb, length-append, subst, ◌||◌, take-append_exact,
}
use game_server_manager.Rcon.{
  Bytes, got, read_full, rcon_packet_bytes, rcon_read, overwrite, read_body, packet_body, lt_int32,
}
use game_server_manager.Rcon.Word.{int32_bytes, read_int32-bytes}
use game_server_manager.Rcon.Stream.{read_full-ReadsFlat, ReadsFlat-exact}

-- The format: size, id and type as little-endian int32, the body, two zero bytes.
abbrev pub packet_format : (id typ : ℕ) → Bytes → Bytes
packet_format id typ body =
    int32_bytes (10 + length body) ++ (int32_bytes id ++ (int32_bytes typ ++ (body ++ 0 ∷ 0 ∷ [])))

overwrite-zeros :
    (body : Bytes) (n : ℕ)
    → n ≡ length body + 2
    → overwrite (replicate n 0) body ≡ body ++ 0 ∷ 0 ∷ []
overwrite-zeros [] n e = let e' : n ≡ 2 = omega arith in rw e' refl
overwrite-zeros (b ∷ body) zero e = absurd (omega arith)
overwrite-zeros (b ∷ body) (suc n) e = ap (◌∷◌ b) (overwrite-zeros body n (omega arith))

-- rconSend writes exactly one packet in that format, for every body that an int32 size can count.
pub rcon_packet_bytes-format :
    (id typ : ℕ) (body : Bytes)
    → length body + 14 < 2 ^ 31
    → rcon_packet_bytes id typ body ≡ some (packet_format id typ body)
unfolding rcon_packet_bytes
rcon_packet_bytes-format id typ body h =
    let size : (10 + length body) % 2 ^ 32 ≡ 10 + length body = omega arith in
    let total : (4 + (10 + length body)) % 2 ^ 32
        ≡ suc (suc (suc (suc (suc (suc (suc (suc (suc (suc (suc (suc (length body + 2)))))))))))) =
      omega arith in
    let positive : lt_int32
          (suc (suc (suc (suc (suc (suc (suc (suc (suc (suc (suc (suc (length body + 2)))))))))))))
          0
        ≡ false =
      ground arith in
    rw (size, total, positive, overwrite-zeros body (length body + 2) refl) refl

packet_body-format :
    (id typ : ℕ) (body : Bytes)
    → packet_body (int32_bytes id ++ (int32_bytes typ ++ (body ++ 0 ∷ 0 ∷ []))) ≡ body
packet_body-format id typ [] = refl
packet_body-format id typ (b ∷ body) =
    let size : length ((b ∷ body) ++ 0 ∷ 0 ∷ []) ≡ length (b ∷ body) + 2 =
      length-append (b ∷ body) (0 ∷ 0 ∷ []) in
    let n = length (int32_bytes id ++ (int32_bytes typ ++ ((b ∷ body) ++ 0 ∷ 0 ∷ []))) in
    let room : n - 2 - 8 ≡ length (b ∷ body) = omega arith in
    let long : ltb 8 (n - 2) ≡ true = ground arith in
    rw (long, room) (take-append_exact (b ∷ body) (0 ∷ 0 ∷ []))

accepted_size : (n : ℕ) → n ≤ 4086 → (lt_int32 (10 + n) 10 || lt_int32 4096 (10 + n)) ≡ false
accepted_size n h = ground arith

-- The body of a packet that announces its length.
abbrev after_size : (id typ : ℕ) → Bytes → Bytes
after_size id typ body = int32_bytes id ++ (int32_bytes typ ++ (body ++ 0 ∷ 0 ∷ []))

length-after_size : (id typ : ℕ) (body : Bytes) → length (after_size id typ body) ≡ 10 + length body
length-after_size id typ body = omega (arith, length-append body (0 ∷ 0 ∷ []))

rcon_read-size :
    (n : ℕ) (chunks mid : List Bytes)
    → n < 2 ^ 32
    → read_full 4 chunks ≡ got (int32_bytes n) mid
    → rcon_read chunks ≡ read_body n mid
unfolding rcon_read
rcon_read-size n chunks mid h e =
    rw (e, rcon_read) (ap (λ (k : ℕ). read_body k mid) (read_int32-bytes n h))

read_body-format :
    (id typ : ℕ) (body : Bytes) (mid left : List Bytes)
    → id < 2 ^ 32
    → typ < 2 ^ 32
    → length body ≤ 4086
    → read_full (10 + length body) mid ≡ got (after_size id typ body) left
    → read_body (10 + length body) mid
      ≡ some (got (record { size = 10 + length body; id = id; typ = typ; body = body }) left)
unfolding read_body
read_body-format id typ body mid left hid htyp hbody e =
    rw
      (
        accepted_size (length body) hbody,
        e,
        read_int32-bytes id hid,
        read_int32-bytes typ htyp,
        packet_body-format id typ body,
      )
      refl

-- rconRead of a packet with a body of at most 4086 bytes gives back its id, type and body, however
-- the network cuts it, and leaves what follows it in the stream.
pub rcon_read-format :
    (id typ : ℕ) (body extra : Bytes) (chunks : List Bytes)
    → id < 2 ^ 32
    → typ < 2 ^ 32
    → length body ≤ 4086
    → concat chunks ≡ packet_format id typ body ++ extra
    → (left : List Bytes) × (rcon_read chunks
        ≡ some (got (record { size = 10 + length body; id = id; typ = typ; body = body }) left))
      × (concat left ≡ extra)
rcon_read-format id typ body extra chunks hid htyp hbody e =
    let rest = after_size id typ body in
    let (mid, first, after) =
      ReadsFlat-exact (int32_bytes (10 + length body)) (rest ++ extra) (concat chunks)
        (read_full 4 chunks) e (read_full-ReadsFlat 4 chunks) in
    let (left, second, last) =
      ReadsFlat-exact rest extra (concat mid) (read_full (length rest) mid) after
        (read_full-ReadsFlat (length rest) mid) in
    let filled : read_full (10 + length body) mid ≡ got rest left =
      subst (λ (k : ℕ). read_full k mid ≡ got rest left) (length-after_size id typ body) second in
    (
      left,
      rcon_read-size (10 + length body) chunks mid (omega arith) first
          ∙ read_body-format id typ body mid left hid htyp hbody filled,
      last,
    )
