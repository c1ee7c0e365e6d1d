-- ===== src/Lib.antt =====
-- The DongTai server: the collection of method pools from the agents of instrumented applications,
-- the search for vulnerabilities in them, and the running state of the agents.
--
-- An agent reports the calls that a request passed through (a method pool). The server keeps the
-- agent's running state by its heartbeats, hands replay requests out to it, and searches the pool for
-- taint flows: a value that a source method wrote and that reaches a method of the searched signature.
-- A flow that is found goes to handler_vul, which saves it as a vulnerability and, if the project wants it
-- verified, puts a row in the replay queue; the periodic sweep vul_recheck makes that row's request, a
-- heartbeat hands it to the agent, and the replay that comes back confirms the vulnerability or not.
--
-- Which file models what (a path is one of the repository):
--   MethodCall       one call of a method pool, as both engines read it
--   Compatibility    dongtai_common/engine/compatibility.py: reports of version 3 turned into those of
--                    version 2, and the value cut out of `[value]*length`
--   TaintSearch      dongtai_common/engine/vul_engine.py, VulEngine. The setter of method_pool, the
--                    hash dictionaries and the graph (TaintSearch), the paths (Paths), their merging
--                    (Merge), the results (Results); `search` composes them
--   TaintGraph       dongtai_common/engine/vul_engine_v2.py, VulEngineV2: the graph of all taint flows
--                    as it is drawn, and the loop that prunes it
--   StackRecognize   dongtai_common/utils/stack_recognize.py: which frames of a stack are the system's
--   AgentStatus      the writers of an agent's actual_status: ReportHandler.handler, update_heartbeat
--                    and update_agent_status
--   Heartbeat        dongtai_protocol/report/handler/heartbeat_handler.py and the states of
--                    dongtai_common/models/replay_queue.py
--   TaintOrigin      dongtai_engine/signals/handlers/vul_handler.py and parse_param_name.py: in which
--                    parameters of the request a tainted value came in, and the pattern of its URL
--   AgentConfig      dongtai_protocol/views/agent_config.py and the choices of
--                    dongtai_common/models/agent_config.py: which configuration an agent gets
--   Highlight        dongtai_common/engine/compatibility.py, highlight_target_value: the tainted ranges
--                    of a value put into <em>
--   Cleanup          dongtai_engine/plugins/data_clean.py: old method pools are deleted in batches of ids
--   ReplayRequest    dongtai_engine/tasks.py, vul_recheck, from the loop over the positions on: how the
--                    request of a vulnerability is rewritten with the payload
--   ReplayQueue      who writes the replay queue besides the heartbeat: create_vul_recheck_task and
--                    handler_replay_vul of dongtai_engine/signals/handlers/vul_handler.py, the updates
--                    of search_and_save_vul and of the method pool handler, replay_failed, and
--                    vul_recheck (Sweep); and the view of dongtai_web/views/vul_request_replay.py by
--                    which a user sends a request (Resent)
--   SaveVul          dongtai_engine/signals/handlers/vul_handler.py, get_real_url and save_vul (Save): a
--                    sighting becomes a vulnerability, or the next sighting of one
--   VulHandler       handler_replay_vul and handler_vul of the same file, over SaveVul and ReplayQueue
--   Strategies       dongtai_engine/common/queryset.py, load_sink_strategy, and dongtai_engine/filters/main.py:
--                    the sink methods that pools are searched for
--   MethodPools      dongtai_protocol/report/handler/saas_method_pool_handler.py: how the headers and the body
--                    of a reported request are decoded
--   Registration     dongtai_protocol/views/agent_register.py: an agent reports for duty and gets its rows in
--                    the tables of projects, versions, agents and servers (Register), over get_projects of
--                    dongtai_common/models/user.py (Visible)
--   HeaderRules      dongtai_engine/plugins/strategy_headers.py (Checks, and save_vul as record_vul) and
--                    strategy_sensitive.py (Content): security headers and leaks in a method pool
--   Prelude          texts, lists, sorting, dictionaries and sets as the parts above use them
--
-- Texts are lists of code points. A dict of Python is an association list, a table of the database the
-- list of its rows, an update of a table a map over it. An exception is `none`. A set that the code
-- iterates over is a list without repetition; no theorem depends on its order.
--
-- Code from elsewhere is a parameter. networkx is the record TaintSearch.Paths.Networkx, of which
-- FindsPaths says what its documentation says: has_path is true exactly if there is a path, and
-- shortest_path then gives one from the source to the target. marisa_trie.Trie is a function that
-- gives the stored prefixes of a key. TaintOrigin.Codecs holds Django's QueryDict, urllib, json, base64,
-- http.client and the data file java_params.json; the decoders may raise, and what they can read is a
-- condition of the theorem. Nothing is assumed of the other ones: ReplayRequest.Wire holds
-- json and base64 as vul_recheck uses them, VulHandler.Surroundings what the handlers look up in other
-- tables, and the test that Django makes of a tuple. Registration.Outside holds base64, json, lower, the
-- uuid, the date, and the templates that a user sees; HeaderRules.Context and Scanners hold http.client, re2,
-- jq, id_validator, and the strategies and scan templates of other tables.
--
-- The one loop without a bound in the source, filter_invalid_data, takes fuel; a graph with n targets
-- needs n + 1 rounds at most, which TaintGraph.Pruning shows. The decimal text of n takes
-- fuel n + 1, which number_of-digits of Prelude.Splits shows enough. range of Cleanup
-- takes the span of the ids as fuel, which Cleanup.Batches shows enough for a positive step. Every other
-- loop is structural.
--
-- Not modelled: the web views but for send_request_to_replay_queue, the serializers and the tables
-- behind them, migrations, exceptions of the database, the broker, the expiry of the cache and of the
-- locks of tasks, the logs of users and of the process, the handlers of reports other than the
-- heartbeat, search_and_save_vul and its retries, and the functions of VulEngine that nothing
-- calls (loop, dfs, find_other_branch_v2).
pub mod Prelude
pub mod MethodCall
pub mod Compatibility
pub mod TaintSearch
pub mod TaintGraph
pub mod StackRecognize
pub mod AgentStatus
pub mod Heartbeat
pub mod TaintOrigin
pub mod AgentConfig
pub mod Highlight
pub mod Cleanup
pub mod ReplayRequest
pub mod ReplayQueue
pub mod SaveVul
pub mod VulHandler
pub mod Strategies
pub mod MethodPools
pub mod HeaderRules
pub mod Registration
