-- ===== src/Console/Joining.antt =====
-- main/debug_console.c: the command to the receiver that `mosaic` puts together again.
use tab5_client.Mosaic.Link.{Link}
use tab5_client.Mosaic.{EspErr}
use tab5_client.Console.Commands.{cmd_mosaic}
use tab5_client.Console.{Device, join_loop}
use tab5_client.Prelude.{
  ℕ, zero, suc, ◌+◌, ◌-◌, ◌≡◌, refl, sym, ap, ◌∙◌, inl, inr, true, false, List, [], ◌∷◌, ◌++◌,
  append_assoc, append-nil, arith, ltb, Bool-cases, length, take, Bytes,
}

-- Words with single spaces between.
abbrev pub spaced : List Bytes → Bytes
spaced [] = []
spaced (w ∷ []) = w
spaced (w ∷ u ∷ us) = w ++ (32 ∷ spaced (u ∷ us))

-- The words behind the first, each with its space.
abbrev behind : List Bytes → Bytes
behind [] = []
behind (w ∷ ws) = (32 ∷ w) ++ behind ws

spaced-behind : (w : Bytes) (ws : List Bytes) → spaced (w ∷ ws) ≡ w ++ behind ws
spaced-behind w [] = sym (append-nil w)
spaced-behind w (u ∷ us) = ap (λ (t : Bytes). w ++ (32 ∷ t)) (spaced-behind u us)

take-append : (n : ℕ) (xs ys : Bytes) → take n (xs ++ ys) ≡ take n xs ++ take (n - length xs) ys
take-append zero [] ys = refl
take-append (suc n) [] ys = let e : suc n - 0 ≡ suc n = omega arith in rw e refl
take-append zero (x ∷ xs) ys = let e : 0 - suc (length xs) ≡ 0 = omega arith in rw e refl
take-append (suc n) (x ∷ xs) ys =
    let e : suc n - suc (length xs) ≡ n - length xs = omega arith in
    rw e (ap (◌∷◌ x) (take-append n xs ys))

take_nil : (n : ℕ) → take {A = ℕ} n [] ≡ []
take_nil zero = refl
take_nil (suc n) = refl

join_loop-take :
    (ws : List Bytes) (cmd : Bytes) (at : ℕ)
    → join_loop false ws cmd at ≡ cmd ++ take (223 - at) (behind ws)
unfolding join_loop
join_loop-take [] cmd at = rw (take_nil (223 - at), append-nil) refl
join_loop-take (w ∷ ws) cmd at =
    let room = 223 - at in
    elim (Bool-cases (ltb at 223)) [
      | inl t ↦
          let e1 : 224 - at - 1 ≡ 223 - at = omega arith in
          let e2 : 223 - (at + suc (length w)) ≡ 223 - at - suc (length w) = omega arith in
          rw t (
            join_loop-take ws (cmd ++ take (224 - at - 1) (32 ∷ w)) (at + suc (length w))
            ∙ rw (e1, e2)
                (append_assoc cmd (take room (32 ∷ w)) (take (room - suc (length w)) (behind ws))
                  ∙ ap (λ (t : Bytes). cmd ++ t) (sym (take-append room (32 ∷ w) (behind ws)))))
      | inr t ↦ let e3 : 223 - at ≡ 0 = ground (arith, t) in rw (t, e3, append-nil) refl
    ]

module _ {S W : Type 0} (link : Link W) (err_name : EspErr → Bytes) where
  -- The words behind the console's mosaic go to the receiver as one command, with single spaces
  -- between and cut after 223 bytes, once; nothing else changes.
  pub cmd_mosaic-spaced :
      (d : Device S W) (word : Bytes) (words : List Bytes)
      → let r = (cmd_mosaic link err_name d (word ∷ words)).0 in
        (link.sent r.receiver ≡ link.sent d.receiver ++ take 223 (spaced (word ∷ words)) ∷ [])
        × (r ≡ record d { receiver = r.receiver })
  unfolding cmd_mosaic join_loop
  cmd_mosaic-spaced d word words =
      let same : 0 + length word ≡ length word = omega arith in
      let whole : join_loop true (word ∷ words) [] 0 ≡ take 223 (spaced (word ∷ words)) =
        join_loop-take words (take 223 word) (0 + length word)
        ∙ rw same (sym (take-append 223 word (behind words)))
        ∙ ap (take 223) (sym (spaced-behind word words)) in
      (
        link.sent_lem d.receiver (join_loop true (word ∷ words) [] 0)
            ∙ ap (λ (t : Bytes). link.sent d.receiver ++ t ∷ []) whole,
        refl,
      )
