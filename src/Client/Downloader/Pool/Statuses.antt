-- ===== src/Client/Downloader/Pool/Statuses.antt =====
-- The two places where the workers of src/client/downloader.cpp keep the statuses of the pieces: the
-- run's own vector, and the entry in the table of downloads, which is updated first.
use peer_to_peer_file_sharin.Prelude.{
  ℕ, ◌≡◌, refl, Bool, true, false, List, [], ◌∷◌, Option, none, some, set,
}
use peer_to_peer_file_sharin.Bytes.{Bytes, ==_refl}
use peer_to_peer_file_sharin.Container.Map.{Map, find, find-assign}
use peer_to_peer_file_sharin.Common.Hash.{Evp}
use peer_to_peer_file_sharin.Client.Downloader.Info.{DownloadInfo, update, update_found}
use peer_to_peer_file_sharin.Client.Downloader.Reply.{Seeder}
use peer_to_peer_file_sharin.Client.Downloader.Fetch.{
  Turn, Outcome, skipped, refused, stored, visit,
}
use peer_to_peer_file_sharin.Client.Downloader.Pool.{
  Status, downloading, completed, failed, code, Position, idle, finished, trying, listing, writing,
  saving, counting, Pool, Plan, save_state, relisted, take_piece, after_visit, advance,
}

pub data Place : Type 0 where
  own table : Place

-- The statuses of an entry, if there is one.
abbrev pub listed : Option DownloadInfo → List ℕ
listed none = []
listed (some info) = info.piece_status

abbrev pub statuses : Bytes → Place → Pool → List ℕ
statuses fname own p = p.piece_status
statuses fname table p = listed (find fname p.downloads)

-- The status that a turn is about to write.
abbrev pub commits : Place → Position → Option (ℕ × Status)
commits v idle = none
commits v finished = none
commits v (trying i attempt rest) = none
commits own (listing i st) = none
commits table (listing i st) = some (i, st)
commits own (writing i st) = some (i, st)
commits table (writing i st) = none
commits v (saving i st) = none
commits v (counting i) = none

abbrev pub committed : Option (ℕ × Status) → List ℕ → List ℕ
committed none xs = xs
committed (some (i, st)) xs = set xs i (code st)

relisted-code :
    (i : ℕ) (st : Status) (info : DownloadInfo)
    → (relisted i st info).piece_status ≡ set info.piece_status i (code st)
relisted-code i downloading info = refl
relisted-code i completed info = refl
relisted-code i failed info = refl

update-listed :
    (fname : Bytes) (i : ℕ) (st : Status) (m : Map DownloadInfo) (o : Option DownloadInfo)
    → find fname m ≡ o
    → listed (find fname (update fname (relisted i st) m)) ≡ set (listed o) i (code st)
unfolding update update_found
update-listed fname i st m none e = rw (e, update_found, e) refl
update-listed fname i st m (some info) e =
    rw (e, update_found, find-assign fname fname (relisted i st info) m, ==_refl fname)
      (relisted-code i st info)

pub save_state-statuses :
    (fname : Bytes) (v : Place) (saves : Bool) (p : Pool)
    → statuses fname v (save_state saves p) ≡ statuses fname v p
unfolding save_state
save_state-statuses fname own true p = refl
save_state-statuses fname own false p = refl
save_state-statuses fname table true p = refl
save_state-statuses fname table false p = refl

take_piece-statuses :
    (fname : Bytes) (v : Place) (is : List ℕ) (p : Pool)
    → statuses fname v (take_piece is p).1 ≡ statuses fname v p
unfolding take_piece
take_piece-statuses fname v [] p = refl
take_piece-statuses fname own (i ∷ rest) p = refl
take_piece-statuses fname table (i ∷ rest) p = refl

after_visit-statuses :
    (fname : Bytes) (v : Place) (i attempt : ℕ) (rest : List Seeder) (o : Outcome) (p : Pool)
    → statuses fname v (after_visit i attempt rest o p).1 ≡ statuses fname v p
unfolding after_visit
after_visit-statuses fname v i attempt rest skipped p = refl
after_visit-statuses fname own i attempt rest (refused output) p = refl
after_visit-statuses fname table i attempt rest (refused output) p = refl
after_visit-statuses fname own i attempt rest (stored output) p = refl
after_visit-statuses fname table i attempt rest (stored output) p = refl

-- A turn writes the status that it is about to write, and no other.
pub advance-statuses :
    (evp : Evp) (plan : Plan) (v : Place) (order : List Seeder) (d : Position) (t : Turn) (p : Pool)
    → statuses plan.fname v (advance evp plan order d t p).1
      ≡ committed (commits v d) (statuses plan.fname v p)
unfolding advance
advance-statuses evp plan own order idle t p = take_piece-statuses plan.fname own p.pending p
advance-statuses evp plan table order idle t p = take_piece-statuses plan.fname table p.pending p
advance-statuses evp plan own order finished t p = refl
advance-statuses evp plan table order finished t p = refl
advance-statuses evp plan own order (trying i attempt []) t p = refl
advance-statuses evp plan table order (trying i attempt []) t p = refl
advance-statuses evp plan own order (trying i attempt (peer ∷ rest)) t p =
    after_visit-statuses plan.fname own i attempt rest
      (visit evp plan.fname plan.piece_hashes i peer t p.output) p
advance-statuses evp plan table order (trying i attempt (peer ∷ rest)) t p =
    after_visit-statuses plan.fname table i attempt rest
      (visit evp plan.fname plan.piece_hashes i peer t p.output) p
advance-statuses evp plan own order (listing i st) t p = refl
advance-statuses evp plan table order (listing i st) t p =
    update-listed plan.fname i st p.downloads (find plan.fname p.downloads) refl
advance-statuses evp plan own order (writing i st) t p = refl
advance-statuses evp plan table order (writing i st) t p = refl
advance-statuses evp plan own order (saving i st) t p = save_state-statuses plan.fname own t.saves p
advance-statuses evp plan table order (saving i st) t p =
    save_state-statuses plan.fname table t.saves p
advance-statuses evp plan own order (counting i) t p = refl
advance-statuses evp plan table order (counting i) t p = refl
