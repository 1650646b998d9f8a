-- ===== src/Client/Downloader/Run/Retry.antt =====
-- When a file can be downloaded again (src/client/downloader.cpp): not while a download of it runs,
-- and always once that has returned.
use peer_to_peer_file_sharin.Prelude.{
  ◌≡◌, refl, true, false, List, Option, none, some, arith, Bool-cases, inl, inr,
}
use peer_to_peer_file_sharin.Bytes.{Bytes, ==_refl}
use peer_to_peer_file_sharin.Container.Map.{Map, find, find-assign}
use peer_to_peer_file_sharin.Common.Hash.{Evp}
use peer_to_peer_file_sharin.Client.Downloader.Info.{
  DownloadInfo, Downloader, Job, start, is_running, mark_inactive, update, update_found, deactivate,
}
use peer_to_peer_file_sharin.Client.Downloader.Run.{Client, Course, run, guarded}

inactive-update_found :
    (fname : Bytes) (m : Map DownloadInfo) (o : Option DownloadInfo)
    → find fname m ≡ o
    → is_running (find fname (update_found o fname deactivate m)) ≡ false
unfolding update_found is_running
inactive-update_found fname m none e = rw e refl
inactive-update_found fname m (some info) e = rw (find-assign, ==_refl fname) refl

mark_inactive-is_running :
    (fname : Bytes) (m : Map DownloadInfo) → is_running (find fname (mark_inactive fname m)) ≡ false
unfolding mark_inactive update
mark_inactive-is_running fname m = inactive-update_found fname m (find fname m) refl

module _ (evp : Evp) (token gid fname : Bytes) where
  guarded-is_running :
      (o : Option Client) (c : Client)
      → guarded evp token gid fname o ≡ some c
      → is_running (find fname c.downloads) ≡ false
  unfolding guarded
  guarded-is_running none c e = cc
  guarded-is_running (some b) c e = ground (arith, e, mark_inactive-is_running fname b.downloads)

  -- Whatever happened in a download that returned, the file can be downloaded again at once.
  pub start-run :
      (destpath gid' destpath' : Bytes) (course : Course) (before after : Client)
      (threads : List Job)
      → run evp token gid fname destpath course before ≡ some after
      → (start gid' fname destpath' (record { downloads = after.downloads; threads = threads })).1
        ≡ true
  unfolding run start
  start-run destpath gid' destpath' course before after threads e =
      rw (guarded-is_running _ after e) refl

-- While a download of a file runs, another one of it is refused and changes nothing.
pub start-start :
    (gid gid' fname destpath destpath' : Bytes) (d : Downloader)
    → (start gid fname destpath d).1 ≡ true
    → start gid' fname destpath' (start gid fname destpath d).0
      ≡ ((start gid fname destpath d).0, false)
unfolding start is_running
start-start gid gid' fname destpath destpath' d e =
    elim (Bool-cases (is_running (find fname d.downloads))) [
      | inl running ↦ absurd (ground (arith, running, e))
      | inr free ↦ rw (free, find-assign, ==_refl fname) refl
    ]
