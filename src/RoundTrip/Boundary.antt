-- ===== src/RoundTrip/Boundary.antt =====
-- src/istream.rs: the decoder between two fields.
use corelib_rs_no_std.Common.{ℕ, ◌≡◌, refl, sym, List, ◌++◌, subst}
use corelib_rs_no_std.Types.{FixlenType, ArrayKind}
use corelib_rs_no_std.IStream.State.{State, IStream, Event}
use corelib_rs_no_std.RoundTrip.Leads.{dec, Leads, Leads-append}

-- A decoder at a field boundary, inside `depth` sequences.
pub record Rests (depth : ℕ) (s : IStream) : Type 0 where
  pub kind : ArrayKind
  pub subtype : FixlenType
  pub id : ℕ
  pub total : ℕ
  pub left : ℕ
  pub is : s ≡ dec State.idle kind subtype depth 0 id 0 total left

-- From any such decoder `bytes` lead to one inside `depth'` sequences.
abbrev pub Reads : ℕ → List ℕ → ℕ → List Event → Type 0
Reads depth bytes depth' events =
    (s : IStream) → Rests depth s → (s' : IStream) × Rests depth' s' × Leads s bytes s' events

pub Reads-append :
    {d d' d'' : ℕ} {xs ys : List ℕ} {es fs : List Event}
    → Reads d xs d' es
    → Reads d' ys d'' fs
    → Reads d (xs ++ ys) d'' (es ++ fs)
Reads-append p q s r =
    let (t, r', l) = p s r in let (u, r'', m) = q t r' in (u, r'', Leads-append l m)

-- It is enough to look at the decoders written out.
pub Reads-from :
    {d d' : ℕ} {xs : List ℕ} {es : List Event}
    → ((kind : ArrayKind) (subtype : FixlenType) (id total left : ℕ)
        → (s' : IStream) × Rests d' s'
          × Leads (dec State.idle kind subtype d 0 id 0 total left) xs s' es)
    → Reads d xs d' es
Reads-from {d} {d'} {xs} {es} h s r =
    subst (λ (t : IStream). (s' : IStream) × Rests d' s' × Leads t xs s' es) (sym r.is)
      (h r.kind r.subtype r.id r.total r.left)

abbrev pub rests :
    (kind : ArrayKind) (subtype : FixlenType) (depth id total left : ℕ)
    → Rests depth (dec State.idle kind subtype depth 0 id 0 total left)
rests kind subtype depth id total left = record {
  kind = kind;
  subtype = subtype;
  id = id;
  total = total;
  left = left;
  is = refl;
}
