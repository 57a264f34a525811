-- ===== src/Messages/Wire/Turns.antt =====
-- The loop of a `merge_from`, turn by turn: what one field on the input does, and what a sequence does.
use dht_kad_rs.Base.{
  ℕ, suc, ◌+◌, ◌-◌, ◌<◌, ◌≡◌, refl, ap, sym, subst, ◌∙◌, Bool, true, false, [], ◌∷◌, done, ok,
  arith,
}
use dht_kad_rs.Kvstore.{Bytes}
use dht_kad_rs.Messages.Types.{Protobuf}
use dht_kad_rs.Messages.Coded.{Coded, ◌>>=◌, try_after, succeed}
use dht_kad_rs.Messages.Wire.Pieces.{
  Pieces, nil, message, ◌⋈◌, ⋈_assoc, ⋈_nil, count, count-⋈, Reads, IsFaithful, bytes_piece,
  enum_piece,
}
use dht_kad_rs.Messages.Wire.{Reader, merge_fields}

module _ {P : Protobuf} (C : Coded P) (crate_law : IsFaithful C) where
  abbrev pub Left : Pieces → C.In → Type 0
  Left = crate_law.Left

  module _ {A : Type 0} (field : ℕ → C.WireType → A → Reader C A) where
    -- The loop takes the pieces off the input, and what it merges into goes from `a` to `b`.
    abbrev pub Takes : Pieces → A → A → Type 0
    Takes ps a b =
        (total fuel : ℕ) (rest : Pieces) (i : C.In)
        → total ≡ count ps + fuel
        → Left (ps ⋈ rest) i
        → (i' : C.In) × (merge_fields C field total a i ≡ merge_fields C field fuel b i')
          × Left rest i'

    pub Takes-nothing : (a b : A) → a ≡ b → Takes nil a b
    Takes-nothing a b same total fuel rest i e here =
        let fuels : total ≡ fuel = omega (arith, e) in
        (
          i,
          ap (λ n. merge_fields C field n a i) fuels ∙ ap (λ z. merge_fields C field fuel z i) same,
          here,
        )

    pub Takes-both :
        (ps qs : Pieces) (a b c : A) → Takes ps a b → Takes qs b c → Takes (ps ⋈ qs) a c
    Takes-both ps qs a b c one two total fuel rest i e here =
        let (i1, e1, left1) =
          one total (count qs + fuel) (qs ⋈ rest) i (omega (arith, e, count-⋈ ps qs))
            (subst (λ x. Left x i) (⋈_assoc ps qs rest) here) in
        let (i2, e2, left2) = two (count qs + fuel) fuel rest i1 refl left1 in (i2, e1 ∙ e2, left2)

    -- One turn of the loop, from its three calls.
    turn :
        (total fuel n : ℕ) (wire : C.WireType) (a b : A) (i i1 i2 i3 : C.In)
        → total ≡ suc fuel
        → C.eof i ≡ (i1, done (ok false))
        → C.read_tag_unpack i1 ≡ (i2, done (ok (n, wire)))
        → field n wire a i2 ≡ (i3, done (ok b))
        → merge_fields C field total a i ≡ merge_fields C field fuel b i3
    unfolding merge_fields
    turn total fuel n wire a b i i1 i2 i3 more e1 e2 e3 =
        ap (λ k. merge_fields C field k a i) more ∙ rw (e1, e2, e3)

    -- A bytes field of which `x` holds nothing yet.
    pub Takes-bytes :
        (n : ℕ) (b old : Bytes) (x : A) (put : Bytes → A)
        → x ≡ put []
        → ((wire : C.WireType) (i : C.In)
            → field n wire x i ≡ (C.read_bytes_into wire old >>= λ v. succeed (put v)) i)
        → Takes (bytes_piece C n b) x (put b)
    Takes-bytes n [] old x put empty calls total fuel rest i e here =
        Takes-nothing x (put []) empty total fuel rest i e here
    Takes-bytes n (c ∷ cs) old x put empty calls total fuel rest i e here =
        let (i1, e1, (wire, (i2, e2, at))) = crate_law.tag_bytes n (c ∷ cs) rest i here in
        let (i3, e3, left) = crate_law.reads_bytes wire (c ∷ cs) old rest i2 at in
        let put_in = calls wire i2 ∙ ap (try_after (λ v. succeed (put v))) e3 in
        (
          i3,
          turn total fuel n wire x (put (c ∷ cs)) i i1 i2 i3 (omega (arith, e)) e1 e2 put_in,
          left,
        )

    -- An enum field that `x` has at its default.
    pub Takes-enum :
        (n : ℕ) (is_default : Bool) (v : ℕ) (x y : A)
        → (is_default ≡ true → x ≡ y)
        → ((wire : C.WireType) (rest : Pieces) (i : C.In)
            → C.is_varint wire ≡ true
            → crate_law.AtEnum v rest i
            → Reads C (field n wire x) y (Left rest) i)
        → Takes (enum_piece C n is_default v) x y
    Takes-enum n true v x y empty reads total fuel rest i e here =
        Takes-nothing x y (empty refl) total fuel rest i e here
    Takes-enum n false v x y empty reads total fuel rest i e here =
        let (i1, e1, (wire, varint, (i2, e2, at))) = crate_law.tag_enum n v rest i here in
        let (i3, e3, left) = reads wire rest i2 varint at in
        (i3, turn total fuel n wire x y i i1 i2 i3 (omega (arith, e)) e1 e2 e3, left)

    pub Takes-message :
        (n : ℕ) (inner : Pieces) (x y : A)
        → ((wire : C.WireType) (rest : Pieces) (i : C.In)
            → crate_law.AtMessage wire inner rest i
            → Reads C (field n wire x) y (Left rest) i)
        → Takes (message n inner nil) x y
    Takes-message n inner x y reads total fuel rest i e here =
        let (i1, e1, (wire, (i2, e2, at))) = crate_law.tag_message n inner rest i here in
        let (i3, e3, left) = reads wire rest i2 at in
        (i3, turn total fuel n wire x y i i1 i2 i3 (omega (arith, e)) e1 e2 e3, left)

    -- With more fuel than there are pieces, the loop reaches the end of the input.
    pub Takes-all :
        (fuel : ℕ) (ps : Pieces) (a b : A) (i : C.In)
        → Takes ps a b
        → count ps < fuel
        → Left ps i
        → Reads C (merge_fields C field fuel a) b (Left nil) i
    unfolding merge_fields
    Takes-all fuel ps a b i takes enough here =
        let (i', e, left) =
          takes fuel (suc (fuel - suc (count ps))) nil i (omega (arith, enough))
            (subst (λ x. Left x i) (sym (⋈_nil ps)) here) in
        let (i'', e', left') = crate_law.ends i' left in (i'', e ∙ rw e', left')
