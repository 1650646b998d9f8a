-- ===== src/Client/Downloader/Report.antt =====
-- `report` of src/client/downloader.cpp: the text about running and completed downloads.
use peer_to_peer_file_sharin.Prelude.{
  ℕ, ◌+◌, ◌*◌, ◌/◌, Bool, not, ◌&&◌, List, [], ◌∷◌, ◌++◌, nat_eq, ltb, if◌then◌else◌, ℤ, pos,
  negsuc, length,
}
use peer_to_peer_file_sharin.Bytes.{Bytes, lit}
use peer_to_peer_file_sharin.Bytes.Decimal.{to_string}
use peer_to_peer_file_sharin.Container.Map.{Map}
use peer_to_peer_file_sharin.Client.Downloader.Info.{DownloadInfo, Downloader}
use peer_to_peer_file_sharin.Client.Downloader.Run.{all_two}

-- out << n, for a long long
unfoldable pub print_int : ℤ → Bytes
unfolding to_string
print_int (pos n) = to_string n
print_int (negsuc n) = b'-' ∷ to_string (n + 1)

-- How many pieces have a status.
unfoldable pub count_status : ℕ → List ℕ → ℕ
count_status st [] = 0
count_status st (x ∷ xs) = (if nat_eq x st then 1 else 0) + count_status st xs

-- !info.piece_status.empty()
unfoldable pub is_started : DownloadInfo → Bool
is_started info = ltb 0 (length info.piece_status)

unfoldable pub is_complete : DownloadInfo → Bool
unfolding is_started all_two
is_complete info = is_started info && all_two info.piece_status

unfoldable pub progress : DownloadInfo → ℕ
progress info =
    if ltb 0 info.total_pieces then (info.completed_pieces * 100) / info.total_pieces else 0

unfoldable pub status_text : DownloadInfo → Bytes
unfolding is_started is_complete count_status to_string lit
status_text info =
    if not (is_started info)
    then lit "PREPARING (fetching metadata)"
    else if is_complete info
    then lit "COMPLETED"
    else to_string (count_status 0 info.piece_status)
      ++ (lit " pending, "
          ++ (to_string (count_status 1 info.piece_status)
              ++ (lit " downloading, "
                  ++ (to_string (count_status 2 info.piece_status)
                      ++ (lit " completed, "
                          ++ (to_string (count_status 3 info.piece_status) ++ lit " failed"))))))

unfoldable pub entry_text : DownloadInfo → Bytes
unfolding progress status_text print_int to_string lit
entry_text info =
    lit "File: "
    ++ (info.filename
        ++ (lit "\n  Group: "
            ++ (info.group_id
                ++ (lit "\n  Size: "
                    ++ (print_int info.total_size
                        ++ (lit " bytes\n  Progress: "
                            ++ (to_string info.completed_pieces
                                ++ (b'/' ∷ to_string info.total_pieces
                                    ++ (lit " pieces ("
                                        ++ (to_string (progress info)
                                            ++ (lit "%)\n  Status: "
                                                ++ (status_text info
                                                    ++ lit
                                                        "\n----------------------------------------\n"))))))))))))

-- The entries that are not skipped: the running and the completed ones.
unfoldable pub shown : Map DownloadInfo → List DownloadInfo
unfolding is_complete
shown [] = []
shown ((k, info) ∷ m) =
    let rest = shown m in if not info.is_active && not (is_complete info) then rest else info ∷ rest

unfoldable pub entries : List DownloadInfo → Bytes
unfolding entry_text
entries [] = []
entries (info ∷ infos) = entry_text info ++ entries infos

unfoldable pub or_none : List DownloadInfo → Bytes
unfolding entries lit
or_none [] = lit "No downloads found.\n"
or_none (info ∷ infos) = entries (info ∷ infos)

unfoldable pub report : Downloader → Bytes
unfolding shown or_none lit
report d = lit "========== Downloads ==========\n" ++ or_none (shown d.downloads)
