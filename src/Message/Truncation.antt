-- ===== src/Message/Truncation.antt =====
-- What a reader does on a message that was cut off.
use icelander.Prelude.{
  ℕ, zero, suc, ◌+◌, ◌^◌, ◌≤◌, ◌<◌, ◌≡◌, refl, sym, ap, ◌∙◌, List, [], ◌∷◌, ◌++◌, map, length,
  length-append, take, drop, All, some, Outcome, done, thrown, fault, Error, Exec, ◌>>=◌, pure,
  or_throw, arith, get_elem?, inl, inr,
}
use mathlib.Core.List.{append-nil}
use icelander.Bytes.{Platform}
use icelander.Builder
use icelander.Reader
use icelander.Reader.{PacketReader, slice, read_memory}
use icelander.Reader.Bounds.{IsReader, Keeps, read_memory_cases, read_memory_lem, read_uint8-Keeps}
use icelander.Message.{
  Field, uint8, uint16, uint32, uint64, string, Shape, byte, half, word, double, text, shape,
  IsField, write_fields, read_field, read_fields, encode_all,
}
use icelander.Message.RoundTrip.{read_fields-between, buffer-write_fields}

abbrev extend : PacketReader → List ℕ → PacketReader
extend r more = record r { data_span = r.data_span ++ more }

take-drop-append :
    (n p : ℕ) (xs ys : List ℕ) → p + n ≤ length xs → take n (drop p (xs ++ ys)) ≡ take n (drop p xs)
take-drop-append zero p xs ys h = refl
take-drop-append (suc n) zero [] ys h = absurd (omega arith)
take-drop-append (suc n) zero (x ∷ xs) ys h =
    ap (◌∷◌ x) (take-drop-append n zero xs ys (omega arith))
take-drop-append (suc n) (suc p) [] ys h = absurd (omega arith)
take-drop-append (suc n) (suc p) (x ∷ xs) ys h = take-drop-append (suc n) p xs ys (omega arith)

get_elem?-append :
    (i : ℕ) (xs ys : List ℕ) → i < length xs → get_elem? (xs ++ ys) i ≡ get_elem? xs i
get_elem?-append i [] ys h = absurd (omega arith)
get_elem?-append zero (x ∷ xs) ys h = refl
get_elem?-append (suc i) (x ∷ xs) ys h = get_elem?-append i xs ys (omega arith)

-- A result on a span, beside the result on a longer one: what was read is read again, an exception
-- may turn into a result, and the reader keeps its bounds.
abbrev Tracks :
    {A : Type 0} → PacketReader → List ℕ → Outcome PacketReader A → Outcome PacketReader A → Type 0
Tracks r more (done a r') o = Keeps r r' × (o ≡ done a (extend r' more))
Tracks r more (thrown e r') o = Keeps r r'
Tracks r more fault o = ⊥

abbrev Steady : {A : Type 0} → Exec PacketReader A → Type 0
Steady m =
    (r : PacketReader) (more : List ℕ)
    → IsReader r
    → length (r.data_span ++ more) < 2 ^ 63
    → Tracks r more (m r) (m (extend r more))

Keeps-trans : {r s t : PacketReader} → Keeps r s → Keeps s t → Keeps r t
Keeps-trans h k = record { valid = k.valid; same_span = k.same_span ∙ h.same_span }

Tracks-trans :
    {A : Type 0} {r s : PacketReader} (more : List ℕ) (o o' : Outcome PacketReader A)
    → Keeps r s
    → Tracks s more o o'
    → Tracks r more o o'
Tracks-trans more (done a t) o' h k = (Keeps-trans h k.0, k.1)
Tracks-trans more (thrown e t) o' h k = Keeps-trans h k
Tracks-trans more fault o' h k = k

>>=-Steady :
    {A B : Type 0} (m : Exec PacketReader A) (f : A → Exec PacketReader B)
    → Steady m
    → ((a : A) → Steady (f a))
    → Steady (m >>= f)
>>=-Steady {A} {B} m f hm hf r more v fits = go (m r) (m (extend r more)) (hm r more v fits)
  where
    chain : Outcome PacketReader A → Outcome PacketReader B
    chain o = elim o [ done a w ↦ f a w | thrown e w ↦ thrown e w | fault ↦ fault ]

    go : (o o' : Outcome PacketReader A) → Tracks r more o o' → Tracks r more (chain o) (chain o')
    go (done a s) o' (k, e) = rw e (
        Tracks-trans more (f a s) (f a (extend s more)) k
          (hf a s more k.valid (rw k.same_span fits)))
    go (thrown x s) o' k = k
    go fault o' k = k

pure-Steady : {A : Type 0} (a : A) → Steady (pure a)
pure-Steady a r more v fits = (record { valid = v; same_span = refl }, refl)

-- The shape of `readUint16` and its siblings.
read_memory-Steady :
    {A : Type 0} (n : ℕ) (e : Error) (g : List ℕ → A)
    → n < 2 ^ 63
    → Steady (read_memory n >>= λ copied. or_throw e copied >>= λ bs. pure (g bs))
read_memory-Steady n e g h r more v fits = elim (read_memory_cases n r h v) [
  | inl short ↦ rw (short, ◌>>=◌) (record { valid = v; same_span = refl })
  | inr (room, full) ↦
      rw (full, ◌>>=◌) (record { valid = omega arith; same_span = refl }, rw (later room, ◌>>=◌))
]
  where
    later :
        r.position_at + n ≤ length r.data_span
        → read_memory n (extend r more)
          ≡ done
              (some (take n (drop r.position_at r.data_span)))
              (record { data_span = r.data_span ++ more; position_at = r.position_at + n })
    later room =
        read_memory_lem n (extend r more) (omega (arith, length-append r.data_span more))
          (omega arith)
        ∙ ground (
          arith,
          length-append r.data_span more,
          take-drop-append n r.position_at r.data_span more,
        )

module _ ⦃m : Platform⦄ where
  read_uint8-Steady : Steady Reader.read_uint8
  unfolding Reader.read_uint8
  read_uint8-Steady r more v fits = ground (
    arith,
    length-append r.data_span more,
    read_uint8-Keeps r v,
    get_elem?-append r.position_at r.data_span more,
  )

  read_string-Steady : (n : ℕ) → m.string_max < 2 ^ 63 → Steady (Reader.read_string n)
  unfolding Reader.read_string
  read_string-Steady n limit r more v fits =
      ground
        (arith, length-append r.data_span more, take-drop-append n r.position_at r.data_span more)

  read_field-Steady : (s : Shape) → m.string_max < 2 ^ 63 → Steady (read_field s)
  unfolding read_field Reader.read_uint16 Reader.read_uint32 Reader.read_uint64
  read_field-Steady byte limit = >>=-Steady _ _ read_uint8-Steady (λ v. pure-Steady (uint8 v))
  read_field-Steady half limit =
      >>=-Steady _ _ (read_memory-Steady 2 _ _ (omega arith)) (λ v. pure-Steady (uint16 v))
  read_field-Steady word limit =
      >>=-Steady _ _ (read_memory-Steady 4 _ _ (omega arith)) (λ v. pure-Steady (uint32 v))
  read_field-Steady double limit =
      >>=-Steady _ _ (read_memory-Steady 8 _ _ (omega arith)) (λ v. pure-Steady (uint64 v))
  read_field-Steady text limit =
      >>=-Steady _ _ (read_memory-Steady 4 _ _ (omega arith))
        λ n. >>=-Steady _ _ (read_string-Steady n limit) (λ s. pure-Steady (string s))

  read_fields-Steady : (ss : List Shape) → m.string_max < 2 ^ 63 → Steady (read_fields ss)
  unfolding read_fields
  read_fields-Steady [] limit = pure-Steady []
  read_fields-Steady (s ∷ ss) limit =
      >>=-Steady _ _ (read_field-Steady s limit)
        λ f. >>=-Steady _ _ (read_fields-Steady ss limit) (λ fs. pure-Steady (f ∷ fs))

  Tracks-cut :
      (fs : List Field) (r : PacketReader) (more : List ℕ)
      (o o' : Outcome PacketReader (List Field)) (w : PacketReader)
      → Tracks r more o o'
      → o' ≡ done fs w
      → length r.data_span < w.position_at
      → (e : Error) × (r' : PacketReader) × (o ≡ thrown e r')
  Tracks-cut fs r more (done gs r') o' w (k, e) whole h =
      absurd (ground (arith, ap length k.same_span))
  Tracks-cut fs r more (thrown e r') o' w k whole h = (e, r', refl)
  Tracks-cut fs r more fault o' w k whole h = absurd k

  read_fields_cut :
      (fs : List Field) (front : List ℕ) (x : ℕ) (back : List ℕ)
      → 2 ^ 32 ≤ m.string_max
      → m.string_max < 2 ^ 63
      → All IsField fs
      → length (encode_all m.endian fs) < 2 ^ 63
      → encode_all m.endian fs ≡ front ++ (x ∷ back)
      → (e : Error) × (r : PacketReader) × (read_fields (map shape fs) (Reader.new front)
          ≡ thrown e r)
  unfolding Reader.new
  read_fields_cut fs front x back big limit h fits cut =
      Tracks-cut fs start (x ∷ back) _ _ finish
        (read_fields-Steady (map shape fs) limit start (x ∷ back)
          (omega (arith, ap length cut, length-append front (x ∷ back))) (rw cut at fits))
        whole (omega (arith, ap length cut, length-append front (x ∷ back)))
    where
      start : PacketReader
      start = record { data_span = front; position_at = 0 }

      finish : PacketReader
      finish = record {
        data_span = encode_all m.endian fs;
        position_at = length (encode_all m.endian fs);
      }

      whole : read_fields (map shape fs) (extend start (x ∷ back)) ≡ done fs finish
      whole = rw (← cut) (
          rw (append-nil (encode_all m.endian fs)) at
            (read_fields-between fs [] [] big h (rw (append-nil (encode_all m.endian fs)) fits)))

  -- A reader on a proper prefix of such a message throws: it neither runs past the prefix nor
  -- makes up fields. The values are in range, strings shorter than 2 ^ 32 bytes among them, the
  -- message is shorter than 2 ^ 63 bytes, and the strings of the platform may have 2 ^ 32 bytes
  -- but not 2 ^ 63.
  pub read_fields_truncated :
      (fs : List Field) (front : List ℕ) (x : ℕ) (back : List ℕ)
      → 2 ^ 32 ≤ m.string_max
      → m.string_max < 2 ^ 63
      → All IsField fs
      → length (Builder.span (write_fields fs Builder.new)) < 2 ^ 63
      → Builder.span (write_fields fs Builder.new) ≡ front ++ (x ∷ back)
      → (e : Error) × (r : PacketReader) × (read_fields (map shape fs) (Reader.new front)
          ≡ thrown e r)
  unfolding Builder.span Builder.new
  read_fields_truncated fs front x back big limit h fits cut =
      let e = buffer-write_fields fs Builder.new h in
      read_fields_cut fs front x back big limit h (rw e at fits) (sym e ∙ cut)
