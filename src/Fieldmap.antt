-- ===== src/Fieldmap.antt =====
-- main/fieldmap.c: the boundary polygon and the point cloud of a field.
pub mod Surface
pub mod Volume
pub mod Grid
use tab5_client.Prelude.{
  ℕ, ◌-◌, Bool, true, false, not, ◌&&◌, ◌||◌, Option, none, some, List, [], ◌∷◌, ◌++◌, ltb, leb,
  if◌then◌else◌, length, get_or,
}
use tab5_client.Float.{F64, Fpu}

abbrev pub max_boundary : ℕ
max_boundary = 2000

abbrev pub max_points : ℕ
max_points = 8000

pub record Vtx : Type 0 where
  pub e : F64
  pub n : F64

pub record Pt : Type 0 where
  pub e : F64
  pub n : F64
  pub z : F64

-- `bound` and `pts` are the arrays up to their counts; the flags say whether they were allocated.
pub record Fieldmap : Type 0 where
  pub has_bound : Bool
  pub bound : List Vtx
  pub has_pts : Bool
  pub pts : List Pt

-- Before `fieldmap_init`: static storage.
abbrev pub fieldmap_boot : Fieldmap
fieldmap_boot = record { has_bound = false; bound = []; has_pts = false; pts = [] }

-- With whether each `malloc` finds memory.
unfoldable pub fieldmap_init : Bool → Bool → Fieldmap → Fieldmap
fieldmap_init b p f = record f { has_bound = f.has_bound || b; has_pts = f.has_pts || p }

unfoldable pub fieldmap_reset : Fieldmap → Fieldmap
fieldmap_reset f = record f { bound = []; pts = [] }

unfoldable pub fieldmap_boundary_add : Fieldmap → F64 → F64 → Fieldmap
fieldmap_boundary_add f e n =
    if f.has_bound && ltb (length f.bound) max_boundary
    then record f { bound = f.bound ++ record { e = e; n = n } ∷ [] }
    else f

unfoldable pub fieldmap_point_add : Fieldmap → F64 → F64 → F64 → Fieldmap
fieldmap_point_add f e n z =
    if f.has_pts && ltb (length f.pts) max_points
    then record f { pts = f.pts ++ record { e = e; n = n; z = z } ∷ [] }
    else f

abbrev pub no_vtx : Vtx
no_vtx = record { e = 0; n = 0 }

unfoldable pub fieldmap_boundary_get : Fieldmap → ℕ → Option Vtx
fieldmap_boundary_get f i = if leb (length f.bound) i then none else some (get_or f.bound i no_vtx)

-- The vertex before the first.
abbrev pub last_vtx : List Vtx → Vtx
last_vtx vs = get_or vs (length vs - 1) no_vtx

-- A box: least and greatest East, least and greatest North.
pub record Box : Type 0 where
  pub e0 : F64
  pub e1 : F64
  pub n0 : F64
  pub n1 : F64

module _ (fpu : Fpu) where
  -- The loop of `fieldmap_area`, with vertex `j` and the sum so far.
  unfoldable pub area_loop : Vtx → List Vtx → F64 → F64
  area_loop j [] a2 = a2
  area_loop j (i ∷ vs) a2 =
      area_loop i vs (fpu.f64_add a2 (fpu.f64_mul (fpu.f64_add j.e i.e) (fpu.f64_sub i.n j.n)))

  abbrev f64_half : F64
  f64_half = 0x3FE0000000000000

  unfoldable pub fieldmap_area : Fieldmap → F64
  fieldmap_area f =
      if ltb (length f.bound) 3
      then 0
      else fpu.f64_mul (fpu.f64_abs (area_loop (last_vtx f.bound) f.bound 0)) f64_half

  abbrev pub least : F64 → F64 → F64
  least x y = if fpu.f64_lt x y then x else y

  abbrev pub greatest : F64 → F64 → F64
  greatest x y = if fpu.f64_lt y x then x else y

  -- Widening the box to a vertex.
  abbrev pub widen : Box → Vtx → Box
  widen b v = record {
    e0 = least v.e b.e0;
    e1 = greatest v.e b.e1;
    n0 = least v.n b.n0;
    n1 = greatest v.n b.n1;
  }

  unfoldable pub bbox_loop : Box → List Vtx → Box
  bbox_loop b [] = b
  bbox_loop b (v ∷ vs) = bbox_loop (widen b v) vs

  abbrev pub bbox_of : List Vtx → Option Box
  bbox_of [] = none
  bbox_of (v ∷ vs) = some (bbox_loop (record { e0 = v.e; e1 = v.e; n0 = v.n; n1 = v.n }) vs)

  unfoldable pub fieldmap_bbox : Fieldmap → Option Box
  fieldmap_bbox f = bbox_of f.bound

  abbrev differ : Bool → Bool → Bool
  differ true b = not b
  differ false b = b

  -- Whether the edge between `i` and `j` is crossed by the ray from a point.
  abbrev pub crosses : Vtx → Vtx → F64 → F64 → Bool
  crosses i j e n =
      differ (fpu.f64_lt n i.n) (fpu.f64_lt n j.n)
      && fpu.f64_lt e (
          fpu.f64_add
            (fpu.f64_div (fpu.f64_mul (fpu.f64_sub j.e i.e) (fpu.f64_sub n i.n))
              (fpu.f64_sub j.n i.n))
            i.e)

  unfoldable pub inside_loop : Vtx → List Vtx → F64 → F64 → Bool → Bool
  inside_loop j [] e n inside = inside
  inside_loop j (i ∷ vs) e n inside = inside_loop i vs e n (differ (crosses i j e n) inside)

  unfoldable pub fieldmap_inside : Fieldmap → F64 → F64 → Bool
  fieldmap_inside f e n = inside_loop (last_vtx f.bound) f.bound e n false
