-- ===== src/Codec/Block/Encoding.antt =====
-- What an encoded block looks like, and when encoding gets to its end.
use native.Mathlib.Nat.{suc-mul}
use filling_pilot_edge_rs.Common.{
  ℕ, zero, suc, ◌+◌, ◌-◌, ◌*◌, ◌<◌, ◌≤◌, ◌^◌, usize, ltb, ◌≡◌, String, true, false, Option, none,
  some, List, [], ◌∷◌, arith, length, All, leb, ◌==◌, length-replicate, Bool-cases, inl, inr, ◌∙◌,
  subst,
}
use filling_pilot_edge_rs.Common.Bytes.{length-copy_into}
use filling_pilot_edge_rs.Common.Dict
use filling_pilot_edge_rs.Common.Dict.{Dict}
use filling_pilot_edge_rs.Common.Eq.{String_eq}
use filling_pilot_edge_rs.Error.{Result, ok, err}
use filling_pilot_edge_rs.Json.{View, null, bool, number, string, array, object}
use filling_pilot_edge_rs.Codec.Crates.{Crates}
use filling_pilot_edge_rs.Codec.Property.{DataBlockProperty, DataBlockDefinition, as_str, size_of}
use filling_pilot_edge_rs.Codec.Registry.{Codec, lookup, encode, byte_size}
use filling_pilot_edge_rs.Codec.Registry.Sizes.{HasSize, encode-HasSize}
use filling_pilot_edge_rs.Codec.Block.{
  put, bind, write_item, write_items, write_array, encode_with, encode_properties, encode_block,
}

-- The outcome is a buffer of n bytes, if it is one.
abbrev pub KeepsLength : ℕ → Option (List ℕ) → Type 0
KeepsLength n none = Unit
KeepsLength n (some bytes) = length bytes ≡ n

-- The outcome is a buffer of n bytes.
abbrev pub Completes : ℕ → Option (List ℕ) → Type 0
Completes n none = ⊥
Completes n (some bytes) = length bytes ≡ n

bind-KeepsLength :
    (n : ℕ) (o : Option (List ℕ)) (k : List ℕ → Option (List ℕ))
    → KeepsLength n o
    → ((bytes : List ℕ) → length bytes ≡ n → KeepsLength n (k bytes))
    → KeepsLength n (bind o k)
bind-KeepsLength n none k h g = tt
bind-KeepsLength n (some bytes) k h g = g bytes h

pub bind-Completes :
    (n : ℕ) (o : Option (List ℕ)) (k : List ℕ → Option (List ℕ))
    → Completes n o
    → ((bytes : List ℕ) → length bytes ≡ n → Completes n (k bytes))
    → Completes n (bind o k)
bind-Completes n none k h g = absurd h
bind-Completes n (some bytes) k h g = g bytes h

put-KeepsLength :
    (start end n : ℕ) (encoded buffer : List ℕ)
    → leb end (length buffer) ≡ true
    → length buffer ≡ n
    → KeepsLength n (put start end (ok encoded) buffer)
unfolding put
put-KeepsLength start end n encoded buffer inside h = elim (Bool-cases (ltb end start)) [
  | inl before ↦ rw before tt
  | inr behind ↦ rw behind (elim (Bool-cases (length encoded == end - start)) [
    | inl same ↦ rw same (length-copy_into buffer start encoded (ground arith) ∙ h)
    | inr other ↦ rw other tt
  ])
]

write_item-KeepsLength :
    (crates : Crates) (start size n : ℕ) (r : Result (List ℕ) String) (buffer : List ℕ)
    → length buffer ≡ n
    → KeepsLength n (write_item crates start size r buffer)
unfolding write_item put
write_item-KeepsLength crates start size n (err e) buffer h =
    elim (Bool-cases (leb (usize (start + size)) (length buffer))) [
      | inl inside ↦ rw inside h
      | inr outside ↦ rw outside h
    ]
write_item-KeepsLength crates start size n (ok encoded) buffer h =
    elim (Bool-cases (leb (usize (start + size)) (length buffer))) [
      | inr outside ↦ rw outside h
      | inl inside ↦
          rw inside (put-KeepsLength start (usize (start + size)) n encoded buffer inside h)
    ]

write_item-Completes :
    (crates : Crates) (start size n : ℕ) (r : Result (List ℕ) String) (buffer : List ℕ)
    → HasSize (some size) r
    → start + size < 2 ^ 64
    → length buffer ≡ n
    → Completes n (write_item crates start size r buffer)
unfolding write_item put
write_item-Completes crates start size n (err e) buffer s w h =
    elim (Bool-cases (leb (usize (start + size)) (length buffer))) [
      | inl inside ↦ rw inside h
      | inr outside ↦ rw outside h
    ]
write_item-Completes crates start size n (ok encoded) buffer s w h =
    let end = usize (start + size) in
    let behind : ltb end start ≡ false = ground arith in
    let same : (length encoded == end - start) ≡ true = ground arith in
    elim (Bool-cases (leb (usize (start + size)) (length buffer))) [
      | inr outside ↦ rw outside h
      | inl inside ↦
          rw (inside, behind, same) (length-copy_into buffer start encoded (ground arith) ∙ h)
    ]

pub one_item : (start size k n : ℕ) → (k == 1) ≡ true → start + k * size ≤ n → start + size ≤ n
one_item start size zero n e f = absurd (cc)
one_item start size (suc k) n e f = omega (arith, suc-mul k size)

module _ (crates : Crates) where
  open crates use {json}
  open json use {Value, Number, view}

  write_items-KeepsLength :
      (c : Codec) (start size k n : ℕ) (items : List Value) (buffer : List ℕ)
      → length buffer ≡ n
      → KeepsLength n (write_items crates c start size k items buffer)
  unfolding write_items
  write_items-KeepsLength c start size zero n items buffer h = h
  write_items-KeepsLength c start size (suc k) n [] buffer h = h
  write_items-KeepsLength c start size (suc k) n (item ∷ items) buffer h =
      bind-KeepsLength n (write_item crates start size (encode crates c item) buffer) _
        (write_item-KeepsLength crates start size n (encode crates c item) buffer h)
        (write_items-KeepsLength c (usize (start + size)) size k n items)

  write_array-KeepsLength :
      (c : Codec) (p : DataBlockProperty) (n : ℕ) (v : View Value Number) (buffer : List ℕ)
      → length buffer ≡ n
      → KeepsLength n (write_array crates c p v buffer)
  unfolding write_array
  write_array-KeepsLength c p n (array items) buffer h =
      write_items-KeepsLength c p.offset (size_of p) p.count n items buffer h
  write_array-KeepsLength c p n null buffer h = h
  write_array-KeepsLength c p n (bool b) buffer h = h
  write_array-KeepsLength c p n (number b) buffer h = h
  write_array-KeepsLength c p n (string b) buffer h = h
  write_array-KeepsLength c p n (object b) buffer h = h

  encode_with-KeepsLength :
      (v : Option Value) (c : Option Codec) (p : DataBlockProperty) (n : ℕ) (buffer : List ℕ)
      → length buffer ≡ n
      → KeepsLength n (encode_with crates v c p buffer)
  unfolding encode_with
  encode_with-KeepsLength none c p n buffer h = h
  encode_with-KeepsLength (some v) none p n buffer h = h
  encode_with-KeepsLength (some v) (some c) p n buffer h = elim (Bool-cases (p.count == 1)) [
    | inl one ↦
        rw one (write_item-KeepsLength crates p.offset (size_of p) n (encode crates c v) buffer h)
    | inr many ↦ rw many (write_array-KeepsLength c p n (view v) buffer h)
  ]

  encode_properties-KeepsLength :
      (ps : List DataBlockProperty) (values : Dict String Value) (n : ℕ) (buffer : List ℕ)
      → length buffer ≡ n
      → KeepsLength n (encode_properties crates ps values buffer)
  unfolding encode_properties
  encode_properties-KeepsLength [] values n buffer h = h
  encode_properties-KeepsLength (p ∷ ps) values n buffer h =
      bind-KeepsLength n _ _
        (encode_with-KeepsLength (Dict.get p.name values) (lookup (as_str p.property_type)) p n
          buffer h)
        (encode_properties-KeepsLength ps values n)

  -- The values of a property are as long as its codec writes them, and all its items end below 2 ^ 64, if it
  -- has a codec.
  abbrev pub FitsCodec : DataBlockProperty → Option Codec → Type 0
  FitsCodec p none = Unit
  FitsCodec p (some c) =
      (byte_size c ≡ some (size_of p)) × (p.offset + p.count * size_of p < 2 ^ 64)

  abbrev pub IsFixed : DataBlockProperty → Type 0
  IsFixed p = FitsCodec p (lookup (as_str p.property_type))

  item-Completes :
      (c : Codec) (v : Value) (start size n : ℕ) (buffer : List ℕ)
      → byte_size c ≡ some size
      → start + size < 2 ^ 64
      → length buffer ≡ n
      → Completes n (write_item crates start size (encode crates c v) buffer)
  item-Completes c v start size n buffer f w h =
      write_item-Completes crates start size n (encode crates c v) buffer
        (subst (λ o. HasSize o (encode crates c v)) f (encode-HasSize crates c v)) w h

  write_items-Completes :
      (c : Codec) (start size k n : ℕ) (items : List Value) (buffer : List ℕ)
      → byte_size c ≡ some size
      → start + k * size < 2 ^ 64
      → length buffer ≡ n
      → Completes n (write_items crates c start size k items buffer)
  unfolding write_items
  write_items-Completes c start size zero n items buffer f w h = h
  write_items-Completes c start size (suc k) n [] buffer f w h = h
  write_items-Completes c start size (suc k) n (item ∷ items) buffer f w h =
      let fits : start + size + k * size < 2 ^ 64 = omega (arith, suc-mul k size) in
      let next : usize (start + size) ≡ start + size = omega arith in
      bind-Completes n _ _ (item-Completes c item start size n buffer f (omega arith) h) (λ written.
        write_items-Completes c (usize (start + size)) size k n items written f (rw next fits))

  write_array-Completes :
      (c : Codec) (p : DataBlockProperty) (n : ℕ) (v : View Value Number) (buffer : List ℕ)
      → byte_size c ≡ some (size_of p)
      → p.offset + p.count * size_of p < 2 ^ 64
      → length buffer ≡ n
      → Completes n (write_array crates c p v buffer)
  unfolding write_array
  write_array-Completes c p n (array items) buffer f w h =
      write_items-Completes c p.offset (size_of p) p.count n items buffer f w h
  write_array-Completes c p n null buffer f w h = h
  write_array-Completes c p n (bool b) buffer f w h = h
  write_array-Completes c p n (number b) buffer f w h = h
  write_array-Completes c p n (string b) buffer f w h = h
  write_array-Completes c p n (object b) buffer f w h = h

  encode_with-Completes :
      (v : Option Value) (c : Option Codec) (p : DataBlockProperty) (n : ℕ) (buffer : List ℕ)
      → FitsCodec p c
      → length buffer ≡ n
      → Completes n (encode_with crates v c p buffer)
  unfolding encode_with
  encode_with-Completes none c p n buffer f h = h
  encode_with-Completes (some v) none p n buffer f h = h
  encode_with-Completes (some v) (some c) p n buffer f h = elim (Bool-cases (p.count == 1)) [
    | inl one ↦ rw one (
        item-Completes c v p.offset (size_of p) n buffer f.0
          (omega
            (arith, one_item p.offset (size_of p) p.count (2 ^ 64 - 1) one (omega (arith, f.1))))
          h)
    | inr many ↦ rw many (write_array-Completes c p n (view v) buffer f.0 f.1 h)
  ]

  encode_properties-Completes :
      (ps : List DataBlockProperty) (values : Dict String Value) (n : ℕ) (buffer : List ℕ)
      → All IsFixed ps
      → length buffer ≡ n
      → Completes n (encode_properties crates ps values buffer)
  unfolding encode_properties
  encode_properties-Completes [] values n buffer f h = h
  encode_properties-Completes (p ∷ ps) values n buffer f h =
      bind-Completes n _ _
        (encode_with-Completes (Dict.get p.name values) (lookup (as_str p.property_type)) p n buffer
          f.0 h)
        (λ written. encode_properties-Completes ps values n written f.1)

  -- Whatever the values are, an encoded block has the total size of its definition.
  pub encode_block-KeepsLength :
      (d : DataBlockDefinition) (values : Dict String Value)
      → KeepsLength d.total_size (encode_block crates d values)
  unfolding encode_block
  encode_block-KeepsLength d values =
      encode_properties-KeepsLength d.properties values d.total_size _
        (length-replicate {A = ℕ} d.total_size 0)

  -- If every property that has a codec is as long as its codec writes, and all its items end below
  -- 2 ^ 64, a block of any values is encoded without a panic, also where properties overlap or
  -- lie outside the block.
  pub encode_block-Completes :
      (d : DataBlockDefinition) (values : Dict String Value)
      → All IsFixed d.properties
      → Completes d.total_size (encode_block crates d values)
  unfolding encode_block
  encode_block-Completes d values f =
      encode_properties-Completes d.properties values d.total_size _ f
        (length-replicate {A = ℕ} d.total_size 0)
