-- ===== src/Packet/Struct.antt =====
-- The fields of a struct, cut out of its bytes and put together again.
use peer_file_torrent.Base.{
  ℕ, ◌+◌, ◌≡◌, refl, sym, ap, ◌∙◌, List, ◌++◌, arith, length, take, drop, length-take, length-drop,
  take-append_eq, drop-append_eq, take-append-drop, drop-drop, take-length,
}
use peer_file_torrent.Packet.{
  Layout, Fields, read_struct, write_struct, send_fields, receive_fields,
}

-- The size of a struct.
abbrev pub size_of : Layout → ℕ
size_of l = l.offset + l.data_max + l.size + l.hash + l.ident

-- Every field has its size.
pub record IsSized (l : Layout) (f : Fields) : Type 0 where
  pub offset : length f.offset ≡ l.offset
  pub payload_data : length f.payload_data ≡ l.data_max
  pub size : length f.size ≡ l.size
  pub hash : length f.hash ≡ l.hash
  pub ident : length f.ident ≡ l.ident

-- Five lists one behind the other, cut at their lengths.
module _ (a b c d e : List ℕ) (i j k m n : ℕ) (ea : length a ≡ i) (eb : length b ≡ j)
    (ec : length c ≡ k) (ed : length d ≡ m) (ee : length e ≡ n) where
  abbrev joined : List ℕ
  joined = a ++ (b ++ (c ++ (d ++ e)))

  after_first : drop i joined ≡ b ++ (c ++ (d ++ e))
  after_first = drop-append_eq i a (b ++ (c ++ (d ++ e))) (sym ea)

  after_second : drop (i + j) joined ≡ c ++ (d ++ e)
  after_second =
      sym (drop-drop i j joined)
      ∙ ap (drop j) after_first
      ∙ drop-append_eq j b (c ++ (d ++ e)) (sym eb)

  after_third : drop (i + j + k) joined ≡ d ++ e
  after_third =
      sym (drop-drop (i + j) k joined)
      ∙ ap (drop k) after_second
      ∙ drop-append_eq k c (d ++ e) (sym ec)

  after_fourth : drop (i + j + k + m) joined ≡ e
  after_fourth =
      sym (drop-drop (i + j + k) m joined) ∙ ap (drop m) after_third ∙ drop-append_eq m d e (sym ed)

  pub first : take i joined ≡ a
  first = take-append_eq i a (b ++ (c ++ (d ++ e))) (sym ea)

  pub second : take j (drop i joined) ≡ b
  second = ap (take j) after_first ∙ take-append_eq j b (c ++ (d ++ e)) (sym eb)

  pub third : take k (drop (i + j) joined) ≡ c
  third = ap (take k) after_second ∙ take-append_eq k c (d ++ e) (sym ec)

  pub fourth : take m (drop (i + j + k) joined) ≡ d
  fourth = ap (take m) after_third ∙ take-append_eq m d e (sym ed)

  pub fifth : take n (drop (i + j + k + m) joined) ≡ e
  fifth = ap (take n) after_fourth ∙ ap (λ (x : ℕ). take x e) (sym ee) ∙ take-length e

-- The five pieces of a list of the right length, joined again.
pub rejoin :
    (i j k m n : ℕ) (xs : List ℕ)
    → length xs ≡ i + j + k + m + n
    → take i xs
        ++ (take j (drop i xs)
            ++ (take k (drop (i + j) xs)
                ++ (take m (drop (i + j + k) xs) ++ take n (drop (i + j + k + m) xs))))
      ≡ xs
rejoin i j k m n xs e =
    let whole : take n (drop (i + j + k + m) xs) ≡ drop (i + j + k + m) xs =
      ap (λ (x : ℕ). take x (drop (i + j + k + m) xs)) left
      ∙ take-length (drop (i + j + k + m) xs) in
    rw whole (
      rw⁻¹ (drop-drop (i + j + k) m xs) (
        rw (take-append-drop m (drop (i + j + k) xs)) (
          rw⁻¹ (drop-drop (i + j) k xs) (
            rw (take-append-drop k (drop (i + j) xs)) (
              rw⁻¹ (drop-drop i j xs)
                (rw (take-append-drop j (drop i xs)) (take-append-drop i xs)))))))
  where
    left : n ≡ length (drop (i + j + k + m) xs)
    left = omega (arith, length-drop (i + j + k + m) xs)

module _ (l : Layout) where
  pub read_struct-write_struct : (f : Fields) → IsSized l f → read_struct l (write_struct f) ≡ f
  unfolding read_struct write_struct
  read_struct-write_struct f s =
      let cut1 =
        first f.offset f.payload_data f.size f.hash f.ident l.offset l.data_max l.size l.hash
          l.ident s.offset s.payload_data s.size s.hash s.ident in
      let cut2 =
        second f.offset f.payload_data f.size f.hash f.ident l.offset l.data_max l.size l.hash
          l.ident s.offset s.payload_data s.size s.hash s.ident in
      let cut3 =
        third f.offset f.payload_data f.size f.hash f.ident l.offset l.data_max l.size l.hash
          l.ident s.offset s.payload_data s.size s.hash s.ident in
      let cut4 =
        fourth f.offset f.payload_data f.size f.hash f.ident l.offset l.data_max l.size l.hash
          l.ident s.offset s.payload_data s.size s.hash s.ident in
      let cut5 =
        fifth f.offset f.payload_data f.size f.hash f.ident l.offset l.data_max l.size l.hash
          l.ident s.offset s.payload_data s.size s.hash s.ident in
      rw (cut1, cut2, cut3, cut4, cut5) refl

  pub receive_fields-send_fields : (f : Fields) → IsSized l f → receive_fields l (send_fields f) ≡ f
  unfolding receive_fields send_fields
  receive_fields-send_fields f s =
      let cut1 =
        first f.offset f.payload_data f.size f.ident f.hash l.offset l.data_max l.size l.ident
          l.hash s.offset s.payload_data s.size s.ident s.hash in
      let cut2 =
        second f.offset f.payload_data f.size f.ident f.hash l.offset l.data_max l.size l.ident
          l.hash s.offset s.payload_data s.size s.ident s.hash in
      let cut3 =
        third f.offset f.payload_data f.size f.ident f.hash l.offset l.data_max l.size l.ident
          l.hash s.offset s.payload_data s.size s.ident s.hash in
      let cut4 =
        fourth f.offset f.payload_data f.size f.ident f.hash l.offset l.data_max l.size l.ident
          l.hash s.offset s.payload_data s.size s.ident s.hash in
      let cut5 =
        fifth f.offset f.payload_data f.size f.ident f.hash l.offset l.data_max l.size l.ident
          l.hash s.offset s.payload_data s.size s.ident s.hash in
      rw (cut1, cut2, cut3, cut4, cut5) refl

  pub write_struct-read_struct :
      (m : List ℕ) → length m ≡ size_of l → write_struct (read_struct l m) ≡ m
  unfolding read_struct write_struct
  write_struct-read_struct m e = rejoin l.offset l.data_max l.size l.hash l.ident m e

  pub send_fields-receive_fields :
      (m : List ℕ) → length m ≡ size_of l → send_fields (receive_fields l m) ≡ m
  unfolding receive_fields send_fields
  send_fields-receive_fields m e =
      rejoin l.offset l.data_max l.size l.ident l.hash m (e ∙ omega arith)

  pub read_struct-IsSized : (m : List ℕ) → length m ≡ size_of l → IsSized l (read_struct l m)
  unfolding read_struct
  read_struct-IsSized m e = record {
    offset = omega (arith, length-take l.offset m);
    payload_data = omega (arith, length-take l.data_max (drop l.offset m), length-drop l.offset m);
    size = omega (
      arith,
      length-take l.size (drop (l.offset + l.data_max) m),
      length-drop (l.offset + l.data_max) m,
    );
    hash = omega (
      arith,
      length-take l.hash (drop (l.offset + l.data_max + l.size) m),
      length-drop (l.offset + l.data_max + l.size) m,
    );
    ident = omega (
      arith,
      length-take l.ident (drop (l.offset + l.data_max + l.size + l.hash) m),
      length-drop (l.offset + l.data_max + l.size + l.hash) m,
    );
  }

  pub receive_fields-IsSized : (m : List ℕ) → length m ≡ size_of l → IsSized l (receive_fields l m)
  unfolding receive_fields
  receive_fields-IsSized m e = record {
    offset = omega (arith, length-take l.offset m);
    payload_data = omega (arith, length-take l.data_max (drop l.offset m), length-drop l.offset m);
    size = omega (
      arith,
      length-take l.size (drop (l.offset + l.data_max) m),
      length-drop (l.offset + l.data_max) m,
    );
    ident = omega (
      arith,
      length-take l.ident (drop (l.offset + l.data_max + l.size) m),
      length-drop (l.offset + l.data_max + l.size) m,
    );
    hash = omega (
      arith,
      length-take l.hash (drop (l.offset + l.data_max + l.size + l.ident) m),
      length-drop (l.offset + l.data_max + l.size + l.ident) m,
    );
  }
