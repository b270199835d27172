-- ===== src/Sbf/Feed/Provenance.antt =====
-- Where the decoded values of the parser of main/sbf_parser.c come from, and how its counters
-- and flags go with them.
use tab5_client.Prelude.{
  ℕ, ◌+◌, ◌≤◌, ◌<◌, ◌≡◌, refl, sym, ap, ◌∙◌, ◌⊎◌, inl, inr, Bool, true, arith, ◌==◌, Bool-cases,
  ◌++◌, leb, length, take, drop, take-append-drop, Bytes, u32,
}
use tab5_client.Float.{Fpu}
use tab5_client.Sbf.Blocks.{
  Parser, read_pvtgeodetic, read_atteuler, read_dop, read_receiverstatus, decode_block,
}
use tab5_client.Sbf.Feed.{sbf_parser_feed, count_valid, block_num}
use tab5_client.Sbf.Feed.Waiting.{IsAccepted, IsWaiting}
use tab5_client.Sbf.Feed.Parts.{Part}
use tab5_client.Sbf.Feed.Delivery.{
  read_pvtgeodetic-append, read_atteuler-append, read_dop-append, read_receiverstatus-append,
}
use tab5_client.Sbf.Feed.Rule.{IsTracked, input_of, sbf_parser_feed-tracked}

-- `x` was read by `read` from a block whose number is `num`: its bytes stand in the input, as many
-- as its length says, and have sync, a sane length and a matching CRC. What follows them in the
-- buffer matters only to a block that is shorter than its layout.
abbrev pub ReadFrom {ℓ} : {A : Type ℓ} → Bytes → ℕ → ℕ → (Bytes → A) → A → Type ℓ
ReadFrom input num layout read x =
    (b : Bytes) × (avail : ℕ) × (blen : ℕ) × IsAccepted b avail blen
    × (length (take blen b) ≡ blen)
    × Part input (take blen b)
    × (block_num b ≡ num)
    × (x ≡ read b)
    × ((blen < layout) ⊎ (read b ≡ read (take blen b)))

-- The value and its flag are both as they were, or the flag is set and the value was read from
-- an accepted block of the input.
abbrev pub IsSourced {ℓ} : {A : Type ℓ} → Bytes → ℕ → ℕ → (Bytes → A) → A → Bool → A → Bool → Type ℓ
IsSourced input num layout read old seen new seen' =
    ((new ≡ old) × (seen' ≡ seen)) ⊎ ((seen' ≡ true) × ReadFrom input num layout read new)

IsSourced-trans {ℓ} :
    {A : Type ℓ} (input : Bytes) (num layout : ℕ) (read : Bytes → A) (x y z : A) (a b c : Bool)
    → IsSourced input num layout read x a y b
    → IsSourced input num layout read y b z c
    → IsSourced input num layout read x a z c
IsSourced-trans input num layout read x y z a b c h (inr k) = inr k
IsSourced-trans input num layout read x y z a b c (inl h) (inl k) = inl (k.0 ∙ h.0, k.1 ∙ h.1)
IsSourced-trans input num layout read x y z a b c (inr (s, (bs, v, l, ok, size, at_, n, e, full)))
      (inl k) =
    inr (k.1 ∙ s, (bs, v, l, ok, size, at_, n, k.0 ∙ e, full))

pub record Sourced (fpu : Fpu) (input : Bytes) (p q : Parser) : Type 0 where
  pub pvt : IsSourced input 4007 94 (read_pvtgeodetic fpu) p.pvt p.pvt_valid q.pvt q.pvt_valid
  pub att : IsSourced input 5938 32 read_atteuler p.att p.att_valid q.att q.att_valid
  pub dop : IsSourced input 4001 32 (read_dop fpu) p.dop p.dop_valid q.dop q.dop_valid
  pub rxstatus :
      IsSourced input 4014 32 read_receiverstatus p.rxstatus p.rxstatus_valid q.rxstatus
        q.rxstatus_valid

Sourced-refl : (fpu : Fpu) (input : Bytes) (p : Parser) → Sourced fpu input p p
Sourced-refl fpu input p = record {
  pvt = inl (refl, refl);
  att = inl (refl, refl);
  dop = inl (refl, refl);
  rxstatus = inl (refl, refl);
}

Sourced-trans :
    (fpu : Fpu) (input : Bytes) (p q r : Parser)
    → Sourced fpu input p q
    → Sourced fpu input q r
    → Sourced fpu input p r
Sourced-trans fpu input p q r s t = record {
  pvt = IsSourced-trans _ _ _ _ p.pvt q.pvt r.pvt p.pvt_valid q.pvt_valid r.pvt_valid s.pvt t.pvt;
  att = IsSourced-trans _ _ _ _ p.att q.att r.att p.att_valid q.att_valid r.att_valid s.att t.att;
  dop = IsSourced-trans _ _ _ _ p.dop q.dop r.dop p.dop_valid q.dop_valid r.dop_valid s.dop t.dop;
  rxstatus =
      IsSourced-trans _ _ _ _ p.rxstatus q.rxstatus r.rxstatus p.rxstatus_valid q.rxstatus_valid
        r.rxstatus_valid s.rxstatus t.rxstatus;
}

-- The four decoders, one for each number, and the default that decodes nothing.
data Decodes (fpu : Fpu) (p : Parser) (b : Bytes) (num : ℕ) : Type 0 where
  as_pvt :
      num ≡ 4007
      → decode_block fpu p b num ≡ record p {
        pvt = read_pvtgeodetic fpu b;
        pvt_count = u32 (p.pvt_count + 1);
        pvt_valid = true;
      }
      → Decodes fpu p b num
  as_att :
      num ≡ 5938
      → decode_block fpu p b num
        ≡ record p { att = read_atteuler b; att_count = u32 (p.att_count + 1); att_valid = true }
      → Decodes fpu p b num
  as_dop :
      num ≡ 4001
      → decode_block fpu p b num
        ≡ record p { dop = read_dop fpu b; dop_count = u32 (p.dop_count + 1); dop_valid = true }
      → Decodes fpu p b num
  as_rxstatus :
      num ≡ 4014
      → decode_block fpu p b num ≡ record p {
        rxstatus = read_receiverstatus b;
        rxstatus_count = u32 (p.rxstatus_count + 1);
        rxstatus_valid = true;
      }
      → Decodes fpu p b num
  as_other : decode_block fpu p b num ≡ p → Decodes fpu p b num

decode_block-cases : (fpu : Fpu) (p : Parser) (b : Bytes) (num : ℕ) → Decodes fpu p b num
unfolding decode_block
decode_block-cases fpu p b num = elim (Bool-cases (num == 4007)) [
  | inl e ↦ as_pvt (ground arith) (rw e)
  | inr e ↦ elim (Bool-cases (num == 5938)) [
    | inl e₁ ↦ as_att (ground arith) (rw (e, e₁))
    | inr e₁ ↦ elim (Bool-cases (num == 4001)) [
      | inl e₂ ↦ as_dop (ground arith) (rw (e, e₁, e₂))
      | inr e₂ ↦ elim (Bool-cases (num == 4014)) [
        | inl e₃ ↦ as_rxstatus (ground arith) (rw (e, e₁, e₂, e₃))
        | inr e₃ ↦ as_other (rw (e, e₁, e₂, e₃))
      ]
    ]
  ]
]

-- A decoder of a block that is as long as its layout reads nothing behind it.
whole_block {ℓ} :
    {A : Type ℓ} (layout : ℕ) (read : Bytes → A)
    → ((xs ys : Bytes) → layout ≤ length xs → read (xs ++ ys) ≡ read xs)
    → (b : Bytes) (blen : ℕ) → length (take blen b) ≡ blen
    → (blen < layout) ⊎ (read b ≡ read (take blen b))
whole_block layout read reads b blen size = elim (Bool-cases (leb layout blen)) [
  | inl h ↦ inr (
      sym (ap read (take-append-drop blen b))
      ∙ reads (take blen b) (drop blen b) (ground (arith, h, size)))
  | inr h ↦ inl (ground (arith, h))
]

module _ (fpu : Fpu) (input : Bytes) (p : Parser) (b : Bytes) (avail blen : ℕ)
    (ok : IsAccepted b avail blen) (size : length (take blen b) ≡ blen)
    (part : Part input (take blen b)) where
  from_block :
      (num : ℕ)
      → block_num b ≡ num
      → Decodes fpu p b num
      → Sourced fpu input p (decode_block fpu p b num)
  from_block num n (as_pvt k e) = rw e (record {
    pvt = inr (
      refl,
      (
        b,
        avail,
        blen,
        ok,
        size,
        part,
        n ∙ k,
        refl,
        whole_block 94 (read_pvtgeodetic fpu) (read_pvtgeodetic-append fpu) b blen size,
      ),
    );
    att = inl (refl, refl);
    dop = inl (refl, refl);
    rxstatus = inl (refl, refl);
  })
  from_block num n (as_att k e) = rw e (record {
    pvt = inl (refl, refl);
    att = inr (
      refl,
      (
        b,
        avail,
        blen,
        ok,
        size,
        part,
        n ∙ k,
        refl,
        whole_block 32 read_atteuler read_atteuler-append b blen size,
      ),
    );
    dop = inl (refl, refl);
    rxstatus = inl (refl, refl);
  })
  from_block num n (as_dop k e) = rw e (record {
    pvt = inl (refl, refl);
    att = inl (refl, refl);
    dop = inr (
      refl,
      (
        b,
        avail,
        blen,
        ok,
        size,
        part,
        n ∙ k,
        refl,
        whole_block 32 (read_dop fpu) (read_dop-append fpu) b blen size,
      ),
    );
    rxstatus = inl (refl, refl);
  })
  from_block num n (as_rxstatus k e) = rw e (record {
    pvt = inl (refl, refl);
    att = inl (refl, refl);
    dop = inl (refl, refl);
    rxstatus = inr (
      refl,
      (
        b,
        avail,
        blen,
        ok,
        size,
        part,
        n ∙ k,
        refl,
        whole_block 32 read_receiverstatus read_receiverstatus-append b blen size,
      ),
    );
  })
  from_block num n (as_other e) = rw e (Sourced-refl fpu input p)

  accepted-Sourced : Sourced fpu input p (count_valid fpu (decode_block fpu p b (block_num b)))
  accepted-Sourced =
      let s = from_block (block_num b) refl (decode_block-cases fpu p b (block_num b)) in
      record { pvt = s.pvt; att = s.att; dop = s.dop; rxstatus = s.rxstatus }

Sourced-IsTracked : (fpu : Fpu) (input : Bytes) → IsTracked fpu input (Sourced fpu input)
Sourced-IsTracked fpu input = record {
  same = Sourced-refl fpu input;
  then_ = Sourced-trans fpu input;
  moved = λ p b n. record {
    pvt = inl (refl, refl);
    att = inl (refl, refl);
    dop = inl (refl, refl);
    rxstatus = inl (refl, refl);
  };
  failed = λ p. record {
    pvt = inl (refl, refl);
    att = inl (refl, refl);
    dop = inl (refl, refl);
    rxstatus = inl (refl, refl);
  };
  accepted = accepted-Sourced fpu input;
}

-- Whatever bytes arrive at a parser that holds less than a block, each of the four decoded values
-- and its flag either stay as they were, or the flag is set and the value is what the decoder of
-- its block number reads from a block whose bytes stand in the input (what was held, and the new
-- bytes behind it), as many as its length says, with sync, a sane length and a matching CRC; from
-- these bytes alone, if the block is as long as its layout, and otherwise also from what follows
-- it in the buffer.
pub sbf_parser_feed-Sourced :
    (fpu : Fpu) (p : Parser) (bytes : Bytes)
    → IsWaiting p
    → Sourced fpu (input_of p bytes) p (sbf_parser_feed fpu p bytes).0
sbf_parser_feed-Sourced fpu p bytes v =
    sbf_parser_feed-tracked fpu p bytes (Sourced fpu (input_of p bytes))
      (Sourced-IsTracked fpu (input_of p bytes)) v
