-- ===== src/Leveler/Recording.antt =====
-- What the recorder and the plane fit of main/leveler.c do to a survey.
use tab5_client.Prelude.{
  ◌+◌, ◌<◌, ◌≡◌, refl, sym, ap, ◌∙◌, ◌⊎◌, inl, inr, Bool, true, false, Option, none, some, arith,
  ltb, if◌then◌else◌, Bool-cases, u32,
}
use tab5_client.Float.{F64, Fpu}
use tab5_client.Gnss.{GnssSnapshot}
use tab5_client.Cutfill.{
  Survey, Geo, cutfill_geo_init, cutfill_project, cutfill_fit_balance, cutfill_survey_add_en,
}
use tab5_client.Leveler.{
  Leveler, mode_flat, Fix, is_off, is_perimeter, current_fix, pin_origin, far_enough, add_sample,
  leveler_record_tick, leveler_fit_balance,
}

module _ (fpu : Fpu) where
  -- The field's origin once there is a fix: the one it had, or the fix.
  abbrev pub origin : Leveler → Fix → Geo
  origin l f = if l.geo.is_set then l.geo else cutfill_geo_init fpu f.lat f.lon f.h

  -- The position of a fix in the field.
  abbrev pub place : Leveler → Fix → F64 × F64
  place l f = cutfill_project fpu (origin l f) f.lat f.lon

  -- The squared distance from the last sample, in square metres.
  abbrev pub moved2 : Leveler → F64 × F64 → F64
  moved2 l (e, n) =
      fpu.f64_add (fpu.f64_mul (fpu.f64_sub e l.last_e) (fpu.f64_sub e l.last_e))
        (fpu.f64_mul (fpu.f64_sub n l.last_n) (fpu.f64_sub n l.last_n))

  -- The bit pattern of 1.0.
  abbrev pub one_metre : F64
  one_metre = 0x3FF0000000000000

  abbrev pub IsMoved : Leveler → F64 × F64 → Type 0
  IsMoved l p =
      (l.have_last ≡ false) ⊎ (fpu.f64_le (fpu.f64_mul one_metre one_metre) (moved2 l p) ≡ true)

  -- Two states that differ in the origin at most, which is that of the fix.
  pub record SameSurvey (l r : Leveler) (f : Fix) : Type 0 where
    pub points : r.points ≡ l.points
    pub boundary : r.boundary ≡ l.boundary
    pub field : r.field ≡ l.field
    pub survey : r.survey ≡ l.survey
    pub plane : r.plane ≡ l.plane
    pub rec : r.rec ≡ l.rec
    pub geo : r.geo ≡ origin l f
    pub last_e : r.last_e ≡ l.last_e
    pub last_n : r.last_n ≡ l.last_n
    pub have_last : r.have_last ≡ l.have_last

  -- One more point at a place, which is also the new reference of the distance gate.
  pub record OneSample (l r : Leveler) (f : Fix) : Type 0 where
    pub points : r.points ≡ u32 (l.points + 1)
    pub boundary : r.boundary ≡ (if is_perimeter l.rec then u32 (l.boundary + 1) else l.boundary)
    pub counted : r.survey.n ≡ u32 (l.survey.n + 1)
    pub last_e : r.last_e ≡ (place l f).0
    pub last_n : r.last_n ≡ (place l f).1
    pub have_last : r.have_last ≡ true
    pub plane : r.plane ≡ l.plane
    pub rec : r.rec ≡ l.rec
    pub geo : r.geo ≡ origin l f

  pub data Ticked (l : Leveler) (g : GnssSnapshot) (r : Leveler) : Type 0 where
    idle : (is_off l.rec ≡ true) ⊎ (current_fix fpu g ≡ none) → r ≡ l → Ticked l g r
    near :
        (f : Fix)
        → is_off l.rec ≡ false
        → current_fix fpu g ≡ some f
        → ¬ IsMoved l (place l f)
        → SameSurvey l r f
        → Ticked l g r
    sampled :
        (f : Fix)
        → is_off l.rec ≡ false
        → current_fix fpu g ≡ some f
        → IsMoved l (place l f)
        → OneSample l r f
        → Ticked l g r

  pin_origin-SameSurvey : (l : Leveler) (f : Fix) → SameSurvey l (pin_origin fpu l f) f
  pin_origin-SameSurvey l f = ground arith

  add_sample-OneSample :
      (l : Leveler) (f : Fix)
      → OneSample l (add_sample fpu (pin_origin fpu l f) f (is_perimeter l.rec)) f
  unfolding add_sample cutfill_survey_add_en
  add_sample-OneSample l f =
      let same = pin_origin-SameSurvey l f in
      record {
        points = ap (λ n. u32 (n + 1)) same.points;
        boundary = ap (λ n. if is_perimeter l.rec then u32 (n + 1) else n) same.boundary;
        counted = ap (λ (s : Survey). u32 (s.n + 1)) same.survey;
        last_e = ap (λ g. (cutfill_project fpu g f.lat f.lon).0) same.geo;
        last_n = ap (λ g. (cutfill_project fpu g f.lat f.lon).1) same.geo;
        have_last = refl;
        plane = same.plane;
        rec = same.rec;
        geo = same.geo;
      }

  -- The gate, with the origin pinned, at the place of the fix.
  abbrev passes : Leveler → Fix → Bool
  passes l f =
      let pinned = pin_origin fpu l f in
      let p = cutfill_project fpu pinned.geo f.lat f.lon in far_enough fpu pinned p.0 p.1

  passes-far_enough :
      (l : Leveler) (f : Fix) → passes l f ≡ far_enough fpu l (place l f).0 (place l f).1
  passes-far_enough l f = elim (Bool-cases l.geo.is_set) [ inl s ↦ rw s refl | inr s ↦ rw s refl ]

  passes-IsMoved :
      (l : Leveler) (f : Fix) (b : Bool)
      → passes l f ≡ b
      → far_enough fpu l (place l f).0 (place l f).1 ≡ b
  passes-IsMoved l f b h = sym (passes-far_enough l f) ∙ h

  far_enough-IsMoved : (l : Leveler) (p : F64 × F64) → far_enough fpu l p.0 p.1 ≡ true → IsMoved l p
  far_enough-IsMoved l p h = elim (Bool-cases l.have_last) [
    | inl s ↦ inr (ground (arith, h))
    | inr s ↦ inl s
  ]

  IsMoved-far_enough : (l : Leveler) (p : F64 × F64) → IsMoved l p → far_enough fpu l p.0 p.1 ≡ true
  IsMoved-far_enough l p (inl s) = rw s refl
  IsMoved-far_enough l p (inr s) = ground (arith, s)

  not-IsMoved : (l : Leveler) (f : Fix) → passes l f ≡ false → ¬ IsMoved l (place l f)
  not-IsMoved l f close m =
      let far = IsMoved-far_enough l (place l f) m in
      let stays = passes-IsMoved l f false close in let both : true ≡ false = sym far ∙ stays in cc

  option_cases : (o : Option Fix) → (o ≡ none) ⊎ ((f : Fix) × (o ≡ some f))
  option_cases none = inl refl
  option_cases (some f) = inr (f, refl)

  -- A tick of the recorder changes nothing when it is off or there is no fix. When it is on and
  -- there is a fix, the origin is pinned at the first, and the tick takes exactly one sample if
  -- there was none in this run or the squared distance from the last one, in the machine's
  -- arithmetic, is at least 1 m times 1 m, and none otherwise; in perimeter mode the sample also
  -- counts for the boundary.
  pub leveler_record_tick-Ticked :
      (l : Leveler) (g : GnssSnapshot) → Ticked l g (leveler_record_tick fpu l g)
  unfolding leveler_record_tick
  leveler_record_tick-Ticked l g = elim (Bool-cases (is_off l.rec)) [
    | inl off ↦ idle (inl off) (rw off refl)
    | inr on ↦ elim (option_cases (current_fix fpu g)) [
      | inl e ↦ idle (inr e) (rw (on, e) refl)
      | inr (f, e) ↦ elim (Bool-cases (passes l f)) [
        | inl far ↦
            sampled f on e (far_enough-IsMoved l (place l f) (passes-IsMoved l f true far))
              (rw (on, e, far) (add_sample-OneSample l f))
        | inr close ↦
            near f on e (not-IsMoved l f close) (rw (on, e, close) (pin_origin-SameSurvey l f))
      ]
    ]
  ]

  -- A balance fit with fewer than 3 points fails and takes the target plane away, but a flat
  -- target stays the mode.
  pub leveler_fit_balance-mode_flat :
      (l : Leveler)
      → l.survey.n < 3
      → l.mode ≡ mode_flat
      → let (r, ok) = leveler_fit_balance fpu l in
        (ok ≡ false) × (r.plane.valid ≡ false) × (r.mode ≡ mode_flat)
  unfolding leveler_fit_balance cutfill_fit_balance
  leveler_fit_balance-mode_flat l h m =
      let few : ltb l.survey.n 3 ≡ true = ground (arith, h) in rw few (refl, refl, m)
