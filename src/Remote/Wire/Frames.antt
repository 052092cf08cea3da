-- ===== src/Remote/Wire/Frames.antt =====
-- Frames are encoded and decoded without loss, and only short ones are refused.
use acpp.Prelude.{
  All, Bytes, ℕ, ◌+◌, ◌≤◌, ◌<◌, ltb, arith, ◌≡◌, refl, sym, ap, ◌∙◌, false, Bool-cases, ◌⊎◌, inl,
  inr, [], ◌∷◌, ◌++◌, length, length-append, take, drop, drop-drop, length-take, length-drop,
  take-append-drop, get_elem?-drop, take_all, take-append_le, get_elem?, some, ok, err, u64_mod,
}
use mathlib.Core.Path.{subst}
use acpp.Remote.Wire.{
  Frame, short_data_frame, put_uint64, uint64_from, encode_data, byte_or_zero, parts_of,
  decode_data,
}

-- A stream id, and numbers that fit their fields.
pub record IsFrame (f : Frame) : Type 0 where
  pub id_len : length f.id ≡ 16
  pub id_bytes : All (λ b. b < 256) f.id
  pub off_bound : f.off < u64_mod
  pub kind_bound : f.kind < 256
  pub payload_bytes : All (λ b. b < 256) f.payload

uint64-put : (v : ℕ) → v < u64_mod → uint64_from 0 (put_uint64 v) ≡ v
unfolding uint64_from put_uint64
uint64-put v h = omega arith

cons_eq : {a b : ℕ} {as_ bs : Bytes} → a ≡ b → as_ ≡ bs → a ∷ as_ ≡ b ∷ bs
cons_eq p q = λ i. p i ∷ q i

abbrev AreBytes : Bytes → Type 0
AreBytes = All (λ b. b < 256)

put-uint64 : (ws : Bytes) → length ws ≡ 8 → AreBytes ws → put_uint64 (uint64_from 0 ws) ≡ ws
unfolding uint64_from put_uint64
put-uint64 [] n h = absurd (omega arith)
put-uint64 (a ∷ []) n h = absurd (omega arith)
put-uint64 (a ∷ b ∷ []) n h = absurd (omega arith)
put-uint64 (a ∷ b ∷ c ∷ []) n h = absurd (omega arith)
put-uint64 (a ∷ b ∷ c ∷ d ∷ []) n h = absurd (omega arith)
put-uint64 (a ∷ b ∷ c ∷ d ∷ e ∷ []) n h = absurd (omega arith)
put-uint64 (a ∷ b ∷ c ∷ d ∷ e ∷ f ∷ []) n h = absurd (omega arith)
put-uint64 (a ∷ b ∷ c ∷ d ∷ e ∷ f ∷ g ∷ []) n h = absurd (omega arith)
put-uint64 (a ∷ b ∷ c ∷ d ∷ e ∷ f ∷ g ∷ x ∷ y ∷ r) n h = absurd (omega arith)
put-uint64 (a ∷ b ∷ c ∷ d ∷ e ∷ f ∷ g ∷ x ∷ []) n
      (pa, (pb, (pc, (pd, (pe, (pf, (pg, (px, u)))))))) =
    cons_eq (omega arith) (
      cons_eq (omega arith) (
        cons_eq (omega arith) (
          cons_eq (omega arith) (
            cons_eq (omega arith)
              (cons_eq (omega arith) (cons_eq (omega arith) (cons_eq (omega arith) refl)))))))

uint64_bound : (ws : Bytes) → length ws ≡ 8 → AreBytes ws → uint64_from 0 ws < u64_mod
unfolding uint64_from
uint64_bound [] n h = absurd (omega arith)
uint64_bound (a ∷ []) n h = absurd (omega arith)
uint64_bound (a ∷ b ∷ []) n h = absurd (omega arith)
uint64_bound (a ∷ b ∷ c ∷ []) n h = absurd (omega arith)
uint64_bound (a ∷ b ∷ c ∷ d ∷ []) n h = absurd (omega arith)
uint64_bound (a ∷ b ∷ c ∷ d ∷ e ∷ []) n h = absurd (omega arith)
uint64_bound (a ∷ b ∷ c ∷ d ∷ e ∷ f ∷ []) n h = absurd (omega arith)
uint64_bound (a ∷ b ∷ c ∷ d ∷ e ∷ f ∷ g ∷ []) n h = absurd (omega arith)
uint64_bound (a ∷ b ∷ c ∷ d ∷ e ∷ f ∷ g ∷ x ∷ y ∷ r) n h = absurd (omega arith)
uint64_bound (a ∷ b ∷ c ∷ d ∷ e ∷ f ∷ g ∷ x ∷ []) n
      (pa, (pb, (pc, (pd, (pe, (pf, (pg, (px, u)))))))) =
    omega arith

All-of_append : (xs ys : Bytes) → AreBytes (xs ++ ys) → AreBytes xs × AreBytes ys
All-of_append [] ys h = (tt, h)
All-of_append (x ∷ xs) ys (p, h) = let (a, b) = All-of_append xs ys h in ((p, a), b)

drop-length : (xs ys : Bytes) → drop (length xs) (xs ++ ys) ≡ ys
drop-length [] ys = refl
drop-length (x ∷ xs) ys = drop-length xs ys

drop-append_eq : (n : ℕ) (xs ys : Bytes) → length xs ≡ n → drop n (xs ++ ys) ≡ ys
drop-append_eq n xs ys h = subst (λ m. drop m (xs ++ ys) ≡ ys) h (drop-length xs ys)

take-append_eq : (n : ℕ) (xs ys : Bytes) → length xs ≡ n → take n (xs ++ ys) ≡ xs
take-append_eq n xs ys h = take-append_le n xs ys (omega arith) ∙ take_all n xs (omega arith)

-- A frame in its three parts is taken apart at the right places.
parts-append :
    (id ws p : Bytes) (k : ℕ)
    → length id ≡ 16
    → length ws ≡ 8
    → parts_of (id ++ (ws ++ k ∷ p))
      ≡ record { id = id; kind = k; off = uint64_from 0 ws; payload = p }
unfolding parts_of byte_or_zero
parts-append id ws p k n m =
    let rest = ws ++ k ∷ p in
    let b = id ++ rest in
    let first : take 16 b ≡ id = take-append_eq 16 id rest n in
    let from : drop 16 b ≡ rest = drop-append_eq 16 id rest n in
    let eight : take 8 (drop 16 b) ≡ ws = ap (take 8) from ∙ take-append_eq 8 ws (k ∷ p) m in
    let last : drop 24 b ≡ k ∷ p =
      sym (drop-drop 16 8 b) ∙ ap (drop 8) from ∙ drop-append_eq 8 ws (k ∷ p) m in
    let tag : get_elem? b 24 ≡ some k =
      sym (get_elem?-drop 24 0 b) ∙ ap (λ x. get_elem? x 0) last in
    let load : drop 25 b ≡ p = sym (drop-drop 24 1 b) ∙ ap (drop 1) last in
    λ i. record {
      id = first i;
      kind = byte_or_zero (tag i);
      off = uint64_from 0 (eight i);
      payload = load i;
    }

-- A frame whose numbers fit their fields is decoded from its encoding, which is 25 bytes longer than
-- its payload.
pub decode-encode :
    (f : Frame)
    → IsFrame f
    → (decode_data (encode_data f) ≡ ok f) × (length (encode_data f) ≡ 25 + length f.payload)
unfolding decode_data encode_data
decode-encode f v =
    let ws = put_uint64 f.off in
    let eight : length ws ≡ 8 = unfold put_uint64 in refl in
    let b = f.id ++ (ws ++ f.kind ∷ f.payload) in
    let size : length b ≡ 25 + length f.payload = omega (
      arith,
      v.id_len,
      eight,
      length-append f.id (ws ++ f.kind ∷ f.payload),
      length-append ws (f.kind ∷ f.payload),
    ) in
    let long : ltb (length b) 25 ≡ false = ground (arith, size) in
    (
      rw long (
          ap ok (
            parts-append f.id ws f.payload f.kind v.id_len eight
            ∙ ap (λ o. record f { off = o }) (uint64-put f.off v.off_bound))),
      size,
    )

head_of : (xs : Bytes) → 1 ≤ length xs → (k : ℕ) × (p : Bytes) × (xs ≡ k ∷ p)
head_of [] h = absurd (omega arith)
head_of (k ∷ p) h = (k, p, refl)

whole :
    (b : Bytes)
    → 25 ≤ length b
    → (k : ℕ) × (p : Bytes) × (b ≡ take 16 b ++ (take 8 (drop 16 b) ++ k ∷ p))
whole b h =
    let (k, p, e) = head_of (drop 24 b) (omega (arith, length-drop 24 b)) in
    (
      k,
      p,
      sym (take-append-drop 16 b)
          ∙ ap (λ x. take 16 b ++ x)
              (sym (take-append-drop 8 (drop 16 b))
                ∙ ap (λ x. take 8 (drop 16 b) ++ x) (drop-drop 16 8 b ∙ e)),
    )

-- Of a list of bytes, a frame is decoded exactly if there are at least 25. Its numbers then fit their
-- fields, and its encoding is the list again.
pub decode_cases :
    (b : Bytes)
    → AreBytes b
    → ((length b < 25) × (decode_data b ≡ err short_data_frame))
      ⊎ ((25 ≤ length b) × (f : Frame) × (decode_data b ≡ ok f) × IsFrame f × (encode_data f ≡ b))
unfolding decode_data encode_data
decode_cases b h = elim (Bool-cases (ltb (length b) 25)) [
  | inl e ↦ inl (ground arith, rw e refl)
  | inr e ↦
      let long : 25 ≤ length b = ground arith in
      let (k, p, parts) = whole b long in
      let id = take 16 b in
      let ws = take 8 (drop 16 b) in
      let n : length id ≡ 16 = omega (arith, length-take 16 b) in
      let m : length ws ≡ 8 = omega (arith, length-take 8 (drop 16 b), length-drop 16 b) in
      let (bytes, others) = All-of_append id (ws ++ k ∷ p) (subst AreBytes parts h) in
      let (bytes', (tag, load)) = All-of_append ws (k ∷ p) others in
      let f : Frame = record { id = id; kind = k; off = uint64_from 0 ws; payload = p } in
      inr (
        long,
        f,
        rw e (ap ok (ap parts_of parts ∙ parts-append id ws p k n m)),
        record {
          id_len = n;
          id_bytes = bytes;
          off_bound = uint64_bound ws m bytes';
          kind_bound = tag;
          payload_bytes = load;
        },
        ap (λ x. id ++ (x ++ k ∷ p)) (put-uint64 ws m bytes') ∙ sym parts,
      )
]
