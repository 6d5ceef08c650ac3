-- ===== src/Requests/Create/Life.antt =====
-- What becomes of a new request by the commands that are given to it.
use consoleme.Base.{◌≡◌, ◌≢◌, refl, sym, ◌∙◌, inr, String, List, [], ◌∷◌, All}
use consoleme.Models.{Principal, Change, Request}
use consoleme.Requests.Pairs.{Pairs, Preserved}
use consoleme.Requests.Closed.Steps.{IsHonoured}
use consoleme.Requests.Closed.Settled.{Becomes, Becomes-IsHonoured, Becomes-Preserved}
use consoleme.Requests.Create.Sound.{AllDiffer}
use consoleme.Requests.Create.Made.{IsNew}

other_ids :
    (s t : String) (cs ds : List Change)
    → t ≡ s
    → Pairs Preserved cs ds
    → All (λ (c : Change). c.id ≢ s) cs
    → All (λ (d : Change). d.id ≢ t) ds
other_ids s t [] [] e h n = tt
other_ids s t (c ∷ cs) (d ∷ ds) e h n =
    (λ q. n.0 (sym h.0.0 ∙ q ∙ e), other_ids s t cs ds e h.1 n.1)
other_ids s t [] (d ∷ ds) e h n = elim h [ ]
other_ids s t (c ∷ cs) [] e h n = elim h [ ]

AllDiffer-Preserved : (cs ds : List Change) → Pairs Preserved cs ds → AllDiffer cs → AllDiffer ds
AllDiffer-Preserved [] [] h k = tt
AllDiffer-Preserved (c ∷ cs) (d ∷ ds) h k =
    (other_ids c.id d.id cs ds h.0.0 h.1 k.0, AllDiffer-Preserved cs ds h.1 k.1)
AllDiffer-Preserved [] (d ∷ ds) h k = elim h [ ]
AllDiffer-Preserved (c ∷ cs) [] h k = elim h [ ]

-- Whatever commands are given to a new request, it is never cancelled or rejected with something of it
-- applied, and its changes are as many as before and have their ids, which are all different.
pub IsNew-Becomes :
    (uuid : String) (p : Principal) (r q : Request)
    → IsNew uuid p r
    → Becomes r q
    → IsHonoured q × AllDiffer q.changes × Pairs Preserved r.changes q.changes
IsNew-Becomes uuid p r q h b =
    let kept = Becomes-Preserved r q b in
    (
      Becomes-IsHonoured r q (inr (rw h.is_pending refl)) b,
      AllDiffer-Preserved r.changes q.changes kept h.differ,
      kept,
    )
