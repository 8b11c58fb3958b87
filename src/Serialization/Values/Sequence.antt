-- ===== src/Serialization/Values/Sequence.antt =====
-- Values one after the other in a stream: what is written in sequence is read in sequence.
use v8app.Base.{
  ℕ, ◌+◌, ◌^◌, ◌<◌, ◌≡◌, refl, sym, ap, subst, ◌∙◌, Bool, false, not, Option, some, List, [], ◌++◌,
  ◌>>=◌, length, length-append, append_assoc, append-nil, All, arith, Bool-cases, inl, inr,
}
use v8app.Serialization.Bytes.{object_bytes, length-object_bytes}
use v8app.Serialization.Buffer.{ReadBuffer, WriteBuffer, size_mod, set_write_error}
use v8app.Serialization.Buffer.Reads.{HasInput, HasInput-advance, advance}
use v8app.Serialization.Buffer.Writes.{appended, appended_twice}
use v8app.Serialization.Values.{write_fixed, read_fixed, write_string, read_string, after_write}
use v8app.Serialization.Values.Fixed.{write_fixed_layout, read_fixed-HasInput}
use v8app.Serialization.Values.Strings.{IsChar, advance_twice}
use v8app.Serialization.Values.RoundTrip.{
  wire_string, write_string_layout, read_string-HasInput, IsChar-IsByte,
}

-- A write that appends the bytes `wire`, which depend on the byte order of the stream.
pub record WritesAs (write : WriteBuffer → WriteBuffer) (wire : Bool → List ℕ) : Type 0 where
  pub appends : (b : WriteBuffer) → write b ≡ appended b (wire b.stream_state.big_endian)

-- A read that, in front of the bytes `wire`, moves past them and makes its result of where it then is.
pub record ReadsAs {ℓ} {C : Type ℓ} (read : ReadBuffer → Option C) (wire : Bool → List ℕ)
    (result : ReadBuffer → C) : Type ℓ where
  pub delivers :
      (r : ReadBuffer) (rest : List ℕ)
      → r.error ≡ false
      → HasInput r (wire r.stream_state.big_endian ++ rest)
      → read r ≡ some (result (advance r (length (wire r.stream_state.big_endian))))

pub WritesAs-then :
    {f g : WriteBuffer → WriteBuffer} {v w : Bool → List ℕ}
    → WritesAs f v
    → WritesAs g w
    → WritesAs (λ b. g (f b)) (λ e. v e ++ w e)
WritesAs-then {f} {g} {v} {w} p q = record {
  appends = λ b. rw (p.appends b) (
      unfold appended in
      (q.appends (appended b (v b.stream_state.big_endian))
        ∙ appended_twice b (v b.stream_state.big_endian) (w b.stream_state.big_endian)));
}

module _ {ℓ κ} {A : Type ℓ} {C : Type κ} {f : ReadBuffer → Option (A × ReadBuffer)}
    {v : Bool → List ℕ} {a : A} where
  pub ReadsAs-then :
      {w : Bool → List ℕ} {result : ReadBuffer → C} (g : A → ReadBuffer → Option C)
      → ReadsAs f v (λ r. (a, r))
      → ReadsAs (g a) w result
      → ReadsAs (λ r. f r >>= λ (x, r'). g x r') (λ e. v e ++ w e) result
  ReadsAs-then {w} {result} g p q = record {
    delivers = λ r rest ok h.
        let big = r.stream_state.big_endian in
        let front = subst (HasInput r) (append_assoc (v big) (w big) rest) h in
        rw (p.delivers r (w big ++ rest) ok front) (
          unfold advance in
          (q.delivers (advance r (length (v big))) rest ok
              (HasInput-advance (v big) (w big ++ rest) front)
            ∙ rw (length-append (v big) (w big))
                (ap (λ s. some (result s)) (advance_twice r (length (v big)) (length (w big))))));
  }

  -- The last step, which leaves the stream alone.
  pub ReadsAs-end :
      {result : ReadBuffer → C} (g : A → ReadBuffer → Option C)
      → ReadsAs f v (λ r. (a, r))
      → ((r : ReadBuffer) → r.error ≡ false → g a r ≡ some (result r))
      → ReadsAs (λ r. f r >>= λ (x, r'). g x r') v result
  ReadsAs-end g p q = record {
    delivers = λ r rest ok h.
        rw (p.delivers r rest ok h)
          (unfold advance in q (advance r (length (v r.stream_state.big_endian))) ok);
  }

-- Nothing written, and nothing read.
pub WritesAs-nothing : WritesAs (λ b. b) (λ e. [])
WritesAs-nothing = record {
  appends = λ b.
      unfold appended in
      ap (λ s. record b { base = record (b.base) { buffer = s } }) (sym (append-nil b.buffer));
}

pub ReadsAs-nothing {ℓ} :
    {C : Type ℓ} (result : ReadBuffer → C) → ReadsAs (λ r. some (result r)) (λ e. []) result
ReadsAs-nothing result = record {
  delivers = λ r rest ok h.
      unfold advance in
      let e : r.read_pos ≡ r.read_pos + 0 = omega arith in
      ap (λ p. some (result (record r { read_pos = p }))) e;
}

pub WritesAs-fixed :
    (native : Bool) (w v : ℕ) → WritesAs (λ b. write_fixed native w b v) (λ e. object_bytes e w v)
WritesAs-fixed native w v = record { appends = λ b. write_fixed_layout native w b v }

pub ReadsAs-fixed :
    (native : Bool) (w old v : ℕ)
    → v < 256 ^ w
    → ReadsAs (λ r. read_fixed native w r old) (λ e. object_bytes e w v) (λ r. (v, r))
ReadsAs-fixed native w old v lt = record {
  delivers = λ r rest ok h.
      rw (length-object_bytes r.stream_state.big_endian w v)
        (read_fixed-HasInput native w r old v rest lt h);
}

pub WritesAs-string :
    (native : Bool) (s : List ℕ)
    → All (IsChar 1) s
    → length s + 1 < size_mod
    → WritesAs (λ b. write_string native b s) (λ e. wire_string e 1 s)
WritesAs-string native s chars fits = record {
  appends = λ b. write_string_layout native b s (IsChar-IsByte s chars) fits;
}

pub ReadsAs-string :
    (native : Bool) (junk : ℕ) (s : List ℕ)
    → All (IsChar 1) s
    → length s + 1 < size_mod
    → ReadsAs (λ r. read_string native junk r []) (λ e. wire_string e 1 s) (λ r. (s, r))
ReadsAs-string native junk s chars fits = record {
  delivers = λ r rest ok h. read_string-HasInput native junk r [] s rest chars fits h;
}

-- What a serializer reports, with the stream's own error in it, changes nothing on the way out.
pub after_write_lem : (b : WriteBuffer) → after_write (not b.error, b) ≡ b
after_write_lem b = elim (Bool-cases b.error) [
  | inl e ↦ rw e (unfold set_write_error in refl)
  | inr e ↦ rw e refl
]
