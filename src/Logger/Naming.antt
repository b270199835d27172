-- ===== src/Logger/Naming.antt =====
-- main/logger.c: which file a log goes to.
use mathlib.Core.Path.{subst}
use tab5_client.Prelude.{
  ℕ, zero, suc, ◌+◌, ◌-◌, ◌*◌, ◌<◌, ◌≡◌, refl, ◌⊎◌, inl, inr, Bool, true, false, ◌&&◌, List, [],
  arith, ◌==◌, Bool-cases, length, get_or, Bytes,
}
use tab5_client.Prelude.Tables.{all_below, all_below-lt}
use tab5_client.Str.{dec}
use tab5_client.Logger.{Op, Logger, Card, log_name, open_name, open_loop, open_file, max_logs}

-- The names of the numbers below `i` are all in use.
pub all_taken : Card → ℕ → Bool
all_taken card zero = true
all_taken card (suc i) = card.stats (log_name i) && all_taken card i

-- The first free name is the one that is opened, or all are in use and nothing happens.
abbrev pub Opened : Card → Logger → Logger × List Op → Type 0
Opened card s r =
    ((i : ℕ) × (i < max_logs)
      × (all_taken card i ≡ true)
      × (card.stats (log_name i) ≡ false)
      × (r ≡ open_name card (log_name i) s))
    ⊎ ((all_taken card max_logs ≡ true) × (r ≡ (s, [])))

all_taken-zero : (card : Card) → all_taken card 0 ≡ true
unfolding all_taken
all_taken-zero card = refl

all_taken-suc :
    (card : Card) (j : ℕ)
    → card.stats (log_name j) ≡ true
    → all_taken card j ≡ true
    → all_taken card (suc j) ≡ true
unfolding all_taken
all_taken-suc card j u t = rw (u, t) refl

open_loop-Opened :
    (k i n : ℕ) (card : Card) (s : Logger)
    → k + i ≡ n
    → n ≡ max_logs
    → all_taken card i ≡ true
    → Opened card s (open_loop k i card s)
unfolding open_loop
open_loop-Opened zero i n card s h m t =
    let e : i ≡ max_logs = omega arith in inr (subst (λ (k : ℕ). all_taken card k ≡ true) e t, refl)
open_loop-Opened (suc k) i n card s h m t = elim (Bool-cases (card.stats (log_name i))) [
  | inl u ↦
      let e : suc i ≡ i + 1 = omega arith in
      rw (u, open_loop)
        (open_loop-Opened k (i + 1) n card s (omega arith) m
          (subst (λ (k : ℕ). all_taken card k ≡ true) e (all_taken-suc card i u t)))
  | inr u ↦ rw (u, open_loop) (inl (i, omega arith, t, u, refl))
]

-- A log goes to the file of the least number whose name is free, so
-- that none is overwritten; if the names of all 1000 numbers are in use nothing happens.
pub open_file-Opened : (card : Card) (s : Logger) → Opened card s (open_file card s)
unfolding open_file
open_file-Opened card s =
    open_loop-Opened max_logs 0 max_logs card s (omega arith) refl (all_taken-zero card)

-- The three digits of a name.
abbrev number_of : Bytes → ℕ
number_of p = (get_or p 12 0 - 48) * 100 + (get_or p 13 0 - 48) * 10 + (get_or p 14 0 - 48)

named : ℕ → Bool
named i = number_of (log_name i) == i && length (log_name i) == 19

names_table : all_below 1000 named ≡ true
unfolding all_below named log_name dec
names_table = refl

-- A name says its number, and is 19 characters long with its folder, so that the base name has 7.
pub log_name-number :
    (i : ℕ) → i < max_logs → (number_of (log_name i) ≡ i) × (length (log_name i) ≡ 19)
unfolding named
log_name-number i h = let t = all_below-lt 1000 named i names_table h in ground (arith, t)
