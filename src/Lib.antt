-- ===== src/Lib.antt =====
-- Verification of sctx, a context service for Android (xy2189/sctx).
--
-- The program has two halves. The Java half infers contexts: native contexts (wifi, motion, sound)
-- set system symbols, and ContextInferenceEngine carries each change through the symbols that
-- textual rules define as disjunctions of conjunctions of literals. The C half runs user scripts:
-- a Lua 5.1 interpreter (xy2189/sctx/jni/lua) with a bridge (xy2189/sctx/jni/luajava/luajava.c)
-- through which Lua code holds Java objects as userdata and calls their methods. The two meet
-- where a change of context is told to a Lua script.
--
-- Lua: what the bridge sees of Lua, from xy2189/sctx/jni/lua/lapi.c. Lua/State has the values, the
-- heap of tables and userdata, the stack of one frame and the results of C code: `ok`, `error` for
-- a longjmp by lua_error, `fault` for what C leaves undefined. Lua/Index is index2adr, Lua/Stack
-- the stack and push functions, Lua/Access the reads, Lua/Heap tables, userdata and metatables,
-- Lua/Fields the access with metamethods (luaV_gettable, luaV_settable, whose 100 rounds are the
-- fuel of the source itself; a metamethod that is called is the parameter Calls), Lua/Entries and
-- Lua/Reads the lemmas on them. Numbers are whole: the bridge passes ids, counts and what scripts
-- give it, and does no arithmetic. The conversions between numbers and text (strtod, sprintf) are
-- the parameter Conversion. The size of the C stack, exhausted memory and the steps of the
-- collector are left out; the call of __gc is an operation of its own.
--
-- Bridge: xy2189/sctx/jni/luajava/luajava.c. Bridge/Jni counts the global and local references and
-- the pinned strings; the methods of LuaJavaAPI, JavaFunction.execute and Class.forName are the
-- parameter `Java`, whose methods may change the Lua state and may throw. Bridge/Env is
-- getEnvFromState and pushJNIEnv, Bridge/Raise the errors and the exception handling that every
-- handler repeats, Bridge/Objects pushJavaObject, pushJavaClass, isJavaObject and gc, Bridge/Index
-- the metamethods objectIndex, objectIndexReturn, classIndex and luaJavaFunctionCall,
-- Bridge/Library the functions of the Lua table `luajava`, Bridge/Open luajava_open, and
-- Bridge/Exports the native methods of LuaState, each of which begins with getStateFromCPtr
-- (`enter`); of Lua's functions that run code and of its auxiliary library the calls are the
-- parameters Api and Auxiliary. Method and class lookups (GetStaticMethodID, FindClass) are taken
-- to succeed, and a C pointer of the bridge is a number with 0 for NULL.
--
-- Context/Engine: xy2189/sctx/src/org/sctx/ContextInferenceEngine.java. Symbols that rules define
-- have their place in symbolsById as id, clause objects a number; the sets of clauses are lists in
-- the order of their iterators. PriorityQueue.poll takes the first least node of a list: the order
-- among equal ids, which Java leaves open, does not matter for what is proved. The loop of
-- updateSystemSymbol runs on fuel, and Context/Engine/Update has how much is enough: two rounds,
-- and for the system symbol and for each symbol once, one round for each clause that it affects.
-- Counts are natural numbers, whose decrement stops at 0. Marks, Counts and Invariant have what
-- one notification keeps, Pending which literals still have to be told, Order that the queue only
-- goes forward, Round and Loop the two loops, Truth what the clauses mean.
--
-- Context/Text has what the rules' texts need of String and Scanner, and Context/Engine/Parse is
-- init, parse, parseClause and parseReader, with Util.decodeURLString a parameter; a clause that
-- is parsed is a value until it is added to the engine, which parse does only when the whole line
-- is read, and Context/Engine/Parse/Accepted which lines it takes. Context/Engine/Reach has the
-- steps of an engine, Context/Engine/Tracking, Listed and Once the list of the names that an
-- update reports, Fuel the fuel of the update, Context/Engine/Reset resetSymbolValues and its
-- comparison with the update.
--
-- Context/Smart: xy2189/sctx/src/org/sctx/SmartContext.java, with getNativeContext,
-- putNativeContext, enterContext, leaveContext and notifyContext. The runnables posted to the UI
-- thread and the codes queued for Lua are lists in order; an exception is `none`. The counts are
-- ints by their number modulo 2 ^ 32. enterContext gives the engine the fuel named above.
-- Context/Smart/Counted has what a client sees of the counts, Context/Smart/Files initContextEng,
-- where opening a file is a parameter and null in a concatenation is the text null.
--
-- Context/Wifi: xy2189/sctx/src/org/sctx/WifiContext.java, with WifiRule.match, addRule,
-- removeRule, removeRules and setWifiScanResult, which calls getNativeContext and putNativeContext
-- of Smart. Rule objects are numbers in a store. Context/Wifi/Index and Removal are about the map
-- from names to rules, Scan about the counts of a scan, Contexts about rules and native contexts
-- together, Timer the runnable that asks for scans, Listener onReceive, whose actions are interned
-- texts, Files addRulesFromReader and saveRulesToLocal, with the codec of Util and Scanner.nextInt
-- as parameters.
--
-- Context/Screen: the runnables that notifyContext and resetUI post to the UI thread, on the views
-- of EntryActivity and WifiRuleActivity. Context/Screen/Steps has the thread of the service with
-- the calls of resetUI that wait for it, the UI thread with its queue, and the life of the
-- activities; the holders of Singletons, which the source never makes, are taken to be there, and
-- so is the service's own place in them, of which onCreate has a parameter. The keys of a HashMap
-- come as a list in the order of its iterator. Context/Screen/Shown is what the tasks come to,
-- Copies how many tags they leave of a name, Posting what reaches the UI thread, Told what the
-- notices of one operation come to, Tags the tags of the map and the container, Synced, CatchingUp
-- and Networks what the user sees.
--
-- Context/Start: onCreate of SmartContext on the contents of its files, with the calls that read
-- the rules, tell the UI and the Lua runtime, and post the first reset of the screen.
-- Context/Stop: onDestroy, over the timer and the monitors.
--
-- Context/Motion and Context/Sound: MotionContext.java and SoundContext.java beside it, the
-- monitors as runnables that wait for the thread of the service and may run in any order. What the
-- acceleration comes to is only logged and left out; the level of the noise is a number that the
-- parameter `mix` makes of the old one and the amplitude.
--
-- Context/Runtime: xy2189/sctx/src/org/sctx/DemoLuaRuntime.java, the runnable that queueLuaCode
-- posts for a code, on the Lua state of Lua/State; luaL_loadstring and lua_pcall are the parameter
-- Interpreter. Context/Runtime/Print is the function print that scripts get, where the text of a
-- Java object is a parameter, Context/Runtime/Ring setRingVolume and getRingVolume on the device,
-- whose AudioManager is a parameter with what its documentation says as hypotheses.
--
-- Tests: concrete states on which the theorems are applied.
--
-- Not modelled: the rest of the copy of Lua 5.1.4 (parser, virtual machine, collector, libraries),
-- the Java classes of the copy of LuaJava, the sensors' signal processing, the rest of the user
-- interface and the Android glue; of the program's own code the asset loader and the set-up of the
-- Lua runtime.
pub mod Prelude
pub mod Lua
pub mod Bridge
pub mod Context
pub mod Tests
