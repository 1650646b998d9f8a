-- ===== src/Client/Commands/Text.antt =====
-- `help` of src/client/commands.cpp: the list of commands.
use peer_to_peer_file_sharin.Prelude.{◌++◌}
use peer_to_peer_file_sharin.Bytes.{Bytes, lit}

unfoldable pub help : Bytes
unfolding lit
help =
    lit "\n==================== Available Commands ====================\n"
    ++ (lit "create_user <username> <password>\n"
        ++ (lit "login <username> <password>\n"
            ++ (lit "logout\n"
                ++ (lit "create_group <groupid>\n"
                    ++ (lit "join_group <groupid>\n"
                        ++ (lit "leave_group <groupid>\n"
                            ++ (lit "list_requests <groupid>\n"
                                ++ (lit "accept_request <groupid> <username>\n"
                                    ++ (lit "reject_request <groupid> <username>\n"
                                        ++ (lit "list_groups\n"
                                            ++ (lit "list_files <groupid>\n"
                                                ++ (lit "upload_file <groupid> <filepath>\n"
                                                    ++ (lit
                                                          "download_file <groupid> <filename> <dest_path>\n"
                                                        ++ (lit "stop_share <groupid> <filename>\n"
                                                            ++ (lit "show_downloads\n"
                                                            ++ (lit "commands\n"
                                                            ++ (lit "exit\n"
                                                            ++ lit
                                                            "============================================================\n\n")))))))))))))))))
