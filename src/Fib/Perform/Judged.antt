-- ===== src/Fib/Perform/Judged.antt =====
-- What one address of the sampling adds to the counts.
use buffalo.Common.{
  ℕ, ◌+◌, ◌^◌, ◌≤◌, ◌<◌, ◌==◌, ltb, lt→ltb, if◌then◌else◌, ◌≡◌, refl, [], ◌∷◌, ◌++◌, arith, true,
  ◌⊎◌, Returns, ◌>>=◌,
}
use buffalo.Fib.Globals.{DataScheme, data_routeview, data_funet, data_internet2, data_mac}
use buffalo.Fib.Perform.{Sampling, judge}
use buffalo.Fib.Search.{Found}
use buffalo.FilterBank.{as_int}

-- What one address does: it takes no packet and draws no number, and adds at most one hit for each of `n` next hops.
pub record Sampled (n : ℕ) (s t : Sampling) : Type 0 where
  pub packets : t.packets ≡ s.packets
  pub xseed_kept : t.xseed ≡ s.xseed
  pub hits : t.avgerror ≤ s.avgerror + n
  pub index : t.i ≤ s.i + 1
  pub several : t.falsepos ≤ s.falsepos + 1
  pub within : t.falseneg ≤ t.falsepos

pub judge-Sampled :
    (n addr linearnh : ℕ) (found : Found) (s : Sampling)
    → found.error ≤ n
    → s.avgerror + n < 2 ^ 31
    → s.falseneg ≤ s.falsepos
    → (1 < found.error) ⊎ (found.nh ≡ linearnh)
    → Returns (λ t. Sampled n s t × (t.i ≡ s.i)) (judge addr found linearnh s)
unfolding judge as_int
judge-Sampled n addr linearnh found s bound room within agrees =
    let counted : ltb (s.avgerror + found.error) (2 ^ 31) ≡ true = lt→ltb _ _ (omega arith) in
    (
      record s {
        falseneg = (if found.nh == linearnh then s.falseneg else s.falseneg + 1);
        falsepos = (if ltb 1 found.error then s.falsepos + 1 else s.falsepos);
        detail = (if ltb 1 found.error then s.detail ++ addr ∷ [] else s.detail);
        correct = (if ltb 1 found.error then s.correct else s.correct ++ addr ∷ []);
        avgerror = s.avgerror + found.error;
        maxerror = (if ltb s.maxerror found.error then found.error else s.maxerror);
      },
      rw (counted, ◌>>=◌) refl,
      (
        record {
          packets = refl;
          xseed_kept = refl;
          hits = omega arith;
          index = omega arith;
          several = ground arith;
          within = ground arith;
        },
        refl,
      ),
    )

-- The schemes that read a file.
abbrev pub IsFile : DataScheme → Type 0
IsFile data_routeview = ⊥
IsFile data_funet = Unit
IsFile data_internet2 = Unit
IsFile data_mac = ⊥
